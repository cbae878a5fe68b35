-- ===== src/StreamingCall/Responses.antt =====
-- The frames that the server writes behind the acknowledgement.
use nerw_rpc.Prelude.{
  ℕ, List, [], ◌∷◌, ◌++◌, append_assoc, append-nil, ◌≡◌, ap, ◌∙◌, true, if◌then◌else◌,
}
use nerw_rpc.Prelude.Text.{Text, utf8}
use nerw_rpc.Result.{Result, ok, err}
use nerw_rpc.Error.{RpcResult}
use nerw_rpc.External.Leb128.{Leb128, Leb128Laws}
use nerw_rpc.External.Quic.{SendStream, SendLaws}
use nerw_rpc.Streaming.{StreamingFrame, StreamingError, Codecs, handler_err_to_terminal}
use nerw_rpc.Streaming.Format.{IsFrameOf}
use nerw_rpc.Streaming.Sequence.{AreFramesOf, no_frame, one_more}
use nerw_rpc.Streaming.RoundTrip.{write_frame-Wrote}
use nerw_rpc.Server.Pump.{drain_handler_responses, finalise_streaming, write_terminal}

module _ (debug_strings : List Text → Text) where
  -- The last frame, by the way in which the handler's task ended.
  abbrev pub closing : Result Text (RpcResult (Unit {0})) → StreamingFrame
  closing (ok (ok _)) = StreamingFrame.response_end
  closing (ok (err e)) = StreamingFrame.error (handler_err_to_terminal debug_strings e)
  closing (err join_err) =
      StreamingFrame.error
        (record { message = utf8 "streaming handler join failure: " ++ join_err; terminal = true })

  -- A chunk for every response up to the first error, and one frame that ends the stream: the first
  -- error, or, if there is none, the way in which the handler ended.
  abbrev pub answers :
      List (RpcResult (List ℕ)) → Result Text (RpcResult (Unit {0})) → List StreamingFrame
  answers [] outcome = closing outcome ∷ []
  answers (ok chunk ∷ rest) outcome = StreamingFrame.response_chunk chunk ∷ answers rest outcome
  answers (err e ∷ rest) outcome =
      StreamingFrame.error (handler_err_to_terminal debug_strings e) ∷ []

module _ {S : Type 0} {send : SendStream S} (sends : SendLaws send) {l : Leb128}
    (laws : Leb128Laws l) (debug_strings : List Text → Text) (c : Codecs) where
  -- The state before the substream is finished.
  abbrev pub unfinished : List (RpcResult (List ℕ)) → Result Text (RpcResult (Unit {0})) → S → S
  unfinished responses outcome s =
      let drained = drain_handler_responses send l c debug_strings responses s in
      let closed = finalise_streaming send l c debug_strings outcome drained.1 in
      if drained.0 then drained.1 else closed

  write_terminal-Wrote :
      (e : StreamingError) (wire : List ℕ) (s : S)
      → IsFrameOf c (StreamingFrame.error e) wire
      → sends.is_open s ≡ true
      → (sends.written (write_terminal send l c debug_strings e s) ≡ sends.written s ++ wire)
        × (sends.is_open (write_terminal send l c debug_strings e s) ≡ true)
  write_terminal-Wrote e wire s i o =
      let (t, d, w, u) = write_frame-Wrote sends laws c (StreamingFrame.error e) wire s i o in
      (ap (λ x. sends.written x.1) d ∙ w, ap (λ x. sends.is_open x.1) d ∙ u)

  finalise_streaming-Wrote :
      (outcome : Result Text (RpcResult (Unit {0}))) (wire : List ℕ) (s : S)
      → IsFrameOf c (closing debug_strings outcome) wire
      → sends.is_open s ≡ true
      → (sends.written (finalise_streaming send l c debug_strings outcome s)
          ≡ sends.written s ++ wire)
        × (sends.is_open (finalise_streaming send l c debug_strings outcome s) ≡ true)
  unfolding finalise_streaming
  finalise_streaming-Wrote (ok (ok _)) wire s i o =
      let (t, e, w, u) = write_frame-Wrote sends laws c StreamingFrame.response_end wire s i o in
      (rw (e, finalise_streaming) w, rw (e, finalise_streaming) u)
  finalise_streaming-Wrote (ok (err x)) wire s i o = write_terminal-Wrote _ wire s i o
  finalise_streaming-Wrote (err x) wire s i o = write_terminal-Wrote _ wire s i o

  pub unfinished-written :
      (responses : List (RpcResult (List ℕ))) (outcome : Result Text (RpcResult (Unit {0})))
      (wire : List ℕ) (s : S)
      → AreFramesOf c (answers debug_strings responses outcome) wire
      → sends.is_open s ≡ true
      → (sends.written (unfinished responses outcome s) ≡ sends.written s ++ wire)
        × (sends.is_open (unfinished responses outcome s) ≡ true)
  unfolding drain_handler_responses
  unfinished-written [] outcome _ s (one_more {wire} i no_frame) o =
      rw (append-nil wire) (finalise_streaming-Wrote outcome wire s i o)
  unfinished-written (ok chunk ∷ rest) outcome _ s (one_more {wire} {rest = more} i is) o =
      let (t, e, w, u) =
        write_frame-Wrote sends laws c (StreamingFrame.response_chunk chunk) wire s i o in
      let (v, x) = unfinished-written rest outcome more t is u in
      rw e (v ∙ ap (λ b. b ++ more) w ∙ append_assoc (sends.written s) wire more, x)
  unfinished-written (err e ∷ rest) outcome _ s (one_more {wire} i no_frame) o =
      rw (append-nil wire)
        (write_terminal-Wrote (handler_err_to_terminal debug_strings e) wire s i o)
