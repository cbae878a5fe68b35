-- ===== src/StreamingCall/Items.antt =====
-- What the client's stream yields of the frames that a server writes.
use nerw_rpc.Prelude.{
  ℕ, zero, suc, ◌<◌, List, [], ◌∷◌, ◌++◌, append_assoc, append-nil, ◌≡◌, refl, ap, ◌∙◌, arith,
  Option, some, true, length,
}
use nerw_rpc.Prelude.Text.{Text, utf8}
use nerw_rpc.Result.{Result, ok, err}
use nerw_rpc.Error.{RpcError, RpcResult, display}
use nerw_rpc.External.Quic.{RecvStream, RecvLaws, ReadExactError}
use nerw_rpc.External.Channel.{collect}
use nerw_rpc.Streaming.{StreamingFrame, StreamingError, Codecs, handler_err_to_terminal}
use nerw_rpc.Streaming.Format.{CodecsLaws, IsFrameOf}
use nerw_rpc.Streaming.Sequence.{AreFramesOf, no_frame, one_more}
use nerw_rpc.Streaming.Read.Frames.{read_streaming_frame-pending}
use nerw_rpc.Client.Streaming.{pump_inbound_responses}
use nerw_rpc.StreamingCall.Responses.{answers, closing}

module _ (debug_strings : List Text → Text) where
  -- What the client observes of the end of the handler's task.
  abbrev pub last_items : Result Text (RpcResult (Unit {0})) → List (RpcResult (List ℕ))
  last_items (ok (ok _)) = []
  last_items (ok (err e)) = err (RpcError.handler (display debug_strings e)) ∷ []
  last_items (err join_err) =
      err (RpcError.handler (utf8 "streaming handler join failure: " ++ join_err)) ∷ []

  -- The handler's chunks up to its first error, and then one error, or nothing if it ended well.
  abbrev pub items_of :
      List (RpcResult (List ℕ)) → Result Text (RpcResult (Unit {0})) → List (RpcResult (List ℕ))
  items_of [] outcome = last_items outcome
  items_of (ok chunk ∷ rest) outcome = ok chunk ∷ items_of rest outcome
  items_of (err e ∷ rest) outcome = err (RpcError.handler (display debug_strings e)) ∷ []

module _ {R : Type 0} {recv : RecvStream R} (laws : RecvLaws recv)
    (show_read : ReadExactError → Text) {c : Codecs} (codecs_laws : CodecsLaws c)
    (debug_strings : List Text → Text) (debug_frame : StreamingFrame → Text) where
  abbrev pump : ℕ → R → List (RpcResult (List ℕ)) → Option (R × List (RpcResult (List ℕ)))
  pump = pump_inbound_responses recv show_read c debug_frame collect

  pump-error :
      (fuel : ℕ) (e : StreamingError) (wire rest : List ℕ) (r : R)
      (items : List (RpcResult (List ℕ)))
      → IsFrameOf c (StreamingFrame.error e) wire
      → e.terminal ≡ true
      → laws.pending r ≡ wire ++ rest
      → (s : R) × (pump (suc fuel) r items
          ≡ some (s, items ++ (err (RpcError.handler e.message) ∷ [])))
        × (laws.pending s ≡ rest)
  unfolding pump_inbound_responses
  pump-error fuel e wire rest r items i t p =
      let (s, d, q) =
        read_streaming_frame-pending laws show_read codecs_laws (StreamingFrame.error e) wire rest r
          i p in
      (s, rw (d, t) refl, q)

  pump-closing :
      (fuel : ℕ) (outcome : Result Text (RpcResult (Unit {0}))) (wire rest : List ℕ) (r : R)
      (items : List (RpcResult (List ℕ)))
      → IsFrameOf c (closing debug_strings outcome) wire
      → laws.pending r ≡ wire ++ rest
      → (s : R) × (pump (suc fuel) r items ≡ some (s, items ++ last_items debug_strings outcome))
        × (laws.pending s ≡ rest)
  unfolding pump_inbound_responses handler_err_to_terminal
  pump-closing fuel (ok (ok _)) wire rest r items i p =
      let (s, d, q) =
        read_streaming_frame-pending laws show_read codecs_laws StreamingFrame.response_end wire
          rest r i p in
      (s, rw (d, append-nil items) refl, q)
  pump-closing fuel (ok (err e)) wire rest r items i p =
      pump-error fuel (handler_err_to_terminal debug_strings e) wire rest r items i refl p
  pump-closing fuel (err e) wire rest r items i p = pump-error fuel _ wire rest r items i refl p

  -- When the bytes of these frames are delivered, the client's stream yields exactly the chunks that
  -- the handler sent before its first error, then that error, or how the handler failed, or nothing
  -- if it ended well, and the pump stops there. The fuel is enough if it is above the number of
  -- responses.
  pub pump-answers :
      (responses : List (RpcResult (List ℕ))) (outcome : Result Text (RpcResult (Unit {0})))
      (fuel : ℕ) (wire rest : List ℕ) (r : R) (items : List (RpcResult (List ℕ)))
      → length responses < fuel
      → AreFramesOf c (answers debug_strings responses outcome) wire
      → laws.pending r ≡ wire ++ rest
      → (s : R) × (pump fuel r items ≡ some (s, items ++ items_of debug_strings responses outcome))
        × (laws.pending s ≡ rest)
  unfolding pump_inbound_responses handler_err_to_terminal
  pump-answers responses outcome zero wire rest r items h a p = absurd (omega arith)
  pump-answers [] outcome (suc fuel) _ rest r items h (one_more {wire} i no_frame) p =
      pump-closing fuel outcome wire rest r items i (p ∙ append_assoc wire [] rest)
  pump-answers (ok chunk ∷ more) outcome (suc fuel) _ rest r items h
        (one_more {wire} {rest = tail} i is) p =
      let (s, d, q) =
        read_streaming_frame-pending laws show_read codecs_laws
          (StreamingFrame.response_chunk chunk) wire (tail ++ rest) r i
          (p ∙ append_assoc wire tail rest) in
      let (t, e, u) =
        pump-answers more outcome fuel tail rest s (items ++ (ok chunk ∷ [])) (omega arith) is q in
      (t, rw d (e ∙ ap (λ l. some (t, l)) (append_assoc items (ok chunk ∷ []) _)), u)
  pump-answers (err e ∷ more) outcome (suc fuel) _ rest r items h (one_more {wire} i no_frame) p =
      pump-error fuel (handler_err_to_terminal debug_strings e) wire rest r items i refl
        (p ∙ append_assoc wire [] rest)
