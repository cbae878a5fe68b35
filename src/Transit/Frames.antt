-- ===== src/Transit/Frames.antt =====
-- The codec of the frames is strict.
use nerw_rpc.Prelude.{ℕ, List, [], ◌∷◌, ◌++◌, append-nil, ◌≡◌, refl}
use nerw_rpc.Result.{ok, err, map_err-eq-ok}
use nerw_rpc.External.Postcard.{PostcardTake, PostcardTakeLaws}
use nerw_rpc.Transit.{TransitFrame, encode_frame, decode_frame, malformed}

module _ {p : PostcardTake TransitFrame} (laws : PostcardTakeLaws p) where
  -- A frame that is encoded is decoded again if nothing follows it, and refused as malformed if
  -- anything does.
  pub decode-encode_frame :
      (frame : TransitFrame) (wire : List ℕ)
      → encode_frame p frame ≡ ok wire
      → (decode_frame p wire ≡ ok frame)
        × ((b : ℕ) (rest : List ℕ) → decode_frame p (wire ++ (b ∷ rest)) ≡ err malformed)
  unfolding encode_frame decode_frame
  decode-encode_frame frame wire h =
      let e : p.to_allocvec frame ≡ ok wire =
        map_err-eq-ok (λ x. malformed) (p.to_allocvec frame) h in
      let whole : p.take_from_bytes wire ≡ ok (frame, []) =
        rw (append-nil wire) at (laws.take-to frame wire [] e) in
      (rw whole refl, λ b rest. rw (laws.take-to frame wire (b ∷ rest) e) refl)
