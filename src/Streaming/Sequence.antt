-- ===== src/Streaming/Sequence.antt =====
-- Sequences of frames and their bytes.
use nerw_rpc.Prelude.{ℕ, List, [], ◌∷◌, ◌++◌}
use nerw_rpc.Streaming.{StreamingFrame, Codecs}
use nerw_rpc.Streaming.Format.{IsFrameOf}

-- The bytes are those of the frames, one behind the other.
pub data AreFramesOf (c : Codecs) : List StreamingFrame → List ℕ → Type 0 where
  no_frame : AreFramesOf c [] []
  one_more :
      {f : StreamingFrame} {fs : List StreamingFrame} {wire rest : List ℕ}
      → IsFrameOf c f wire
      → AreFramesOf c fs rest
      → AreFramesOf c (f ∷ fs) (wire ++ rest)
