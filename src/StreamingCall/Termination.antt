-- ===== src/StreamingCall/Termination.antt =====
-- The two pumps end on every finite stream.
use nerw_rpc.Prelude.{
  ℕ, zero, suc, ◌<◌, List, ◌≡◌, refl, arith, Option, none, some, Bool, true, false, if◌then◌else◌,
  length, inl, inr,
}
use nerw_rpc.Prelude.Text.{Text}
use nerw_rpc.Result.{ok, err}
use nerw_rpc.Error.{RpcError, RpcResult}
use nerw_rpc.Io.{Io-cases}
use nerw_rpc.External.Quic.{RecvStream, RecvLaws, ReadExactError}
use nerw_rpc.External.Channel.{Sender}
use nerw_rpc.Streaming.{StreamingFrame, Codecs}
use nerw_rpc.Streaming.Read.{read_streaming_frame}
use nerw_rpc.Streaming.Read.Progress.{read_streaming_frame-progress}
use nerw_rpc.Server.Pump.{unless_closed, pump_inbound_requests, on_request}
use nerw_rpc.Client.Streaming.{unless_dropped, pump_inbound_responses, on_response}

module _ {R C : Type 0} {recv : RecvStream R} (laws : RecvLaws recv)
    (show_read : ReadExactError → Text) (codecs : Codecs) (debug_frame : StreamingFrame → Text)
    (tx : Sender (RpcResult (List ℕ)) C) where
  -- The loop has returned.
  abbrev pub Returned : Option (R × C) → Type 0
  Returned o = (out : R × C) × (o ≡ some out)

  if-Returned :
      (b : Bool) (x y : Option (R × C)) → Returned x → Returned y → Returned (if b then x else y)
  if-Returned true x y hx hy = hx
  if-Returned false x y hx hy = hy

  unless_closed-Returned :
      (again : R → C → Option (R × C)) (s : R)
      → ((d : C) → Returned (again s d))
      → (sent : Bool × C)
      → Returned (unless_closed recv show_read codecs debug_frame tx again s sent)
  unless_closed-Returned again s h (true, d) = h d
  unless_closed-Returned again s h (false, d) = (_, refl)

  unless_dropped-Returned :
      (again : R → C → Option (R × C)) (s : R)
      → ((d : C) → Returned (again s d))
      → (sent : Bool × C)
      → Returned (unless_dropped recv show_read codecs debug_frame tx again s sent)
  unless_dropped-Returned again s h (true, d) = h d
  unless_dropped-Returned again s h (false, d) = (_, refl)

  -- One turn returns if the loop that follows it does.
  on_request-Returned :
      (again : R → C → Option (R × C)) (f : StreamingFrame) (s : R) (c : C)
      → ((d : C) → Returned (again s d))
      → Returned (on_request recv show_read codecs debug_frame tx again (ok (some f), s) c)
  on_request-Returned again StreamingFrame.request_end s c h = (_, refl)
  on_request-Returned again (StreamingFrame.request_chunk bytes) s c h =
      unless_closed-Returned again s h (tx.send (ok bytes) c)
  on_request-Returned again (StreamingFrame.error e) s c h =
      if-Returned e.terminal (some (s, (tx.send (err (RpcError.handler e.message)) c).1)) _
        (_, refl) (h (tx.send (err (RpcError.handler e.message)) c).1)
  on_request-Returned again (StreamingFrame.open_request b) s c h = (_, refl)
  on_request-Returned again (StreamingFrame.open_response b) s c h = (_, refl)
  on_request-Returned again (StreamingFrame.response_chunk b) s c h = (_, refl)
  on_request-Returned again StreamingFrame.response_end s c h = (_, refl)

  on_response-Returned :
      (again : R → C → Option (R × C)) (f : StreamingFrame) (s : R) (c : C)
      → ((d : C) → Returned (again s d))
      → Returned (on_response recv show_read codecs debug_frame tx again (ok (some f), s) c)
  on_response-Returned again StreamingFrame.response_end s c h = (_, refl)
  on_response-Returned again (StreamingFrame.response_chunk bytes) s c h =
      unless_dropped-Returned again s h (tx.send (ok bytes) c)
  on_response-Returned again (StreamingFrame.error e) s c h =
      if-Returned e.terminal (some (s, (tx.send (err (RpcError.handler e.message)) c).1)) _
        (_, refl) (h (tx.send (err (RpcError.handler e.message)) c).1)
  on_response-Returned again (StreamingFrame.open_request b) s c h = (_, refl)
  on_response-Returned again (StreamingFrame.open_response b) s c h = (_, refl)
  on_response-Returned again (StreamingFrame.request_chunk b) s c h = (_, refl)
  on_response-Returned again StreamingFrame.request_end s c h = (_, refl)

  -- The server's request pump returns within one turn per byte that the client sent and one more,
  -- whatever the bytes are and whether or not the handler still listens.
  pub pump_inbound_requests-Returned :
      (fuel : ℕ) (r : R) (c : C)
      → length (laws.pending r) < fuel
      → Returned (pump_inbound_requests recv show_read codecs debug_frame tx fuel r c)
  unfolding pump_inbound_requests
  pump_inbound_requests-Returned zero r c h = absurd (omega arith)
  pump_inbound_requests-Returned (suc fuel) r c h =
      elim (Io-cases (read_streaming_frame recv show_read codecs r)) [
        | inr (e, s, d) ↦ rw d (_, refl)
        | inl (none, s, d) ↦ rw d (_, refl)
        | inl (some f, s, d) ↦ rw d (
            on_request-Returned (pump_inbound_requests recv show_read codecs debug_frame tx fuel) f
              s c
              (λ x.
                pump_inbound_requests-Returned fuel s x
                  (omega (arith, read_streaming_frame-progress laws show_read codecs r s f d))))
      ]

  -- The client's response pump returns within one turn per byte that the server sent and one more,
  -- whatever the bytes are and whether or not the caller still listens.
  pub pump_inbound_responses-Returned :
      (fuel : ℕ) (r : R) (c : C)
      → length (laws.pending r) < fuel
      → Returned (pump_inbound_responses recv show_read codecs debug_frame tx fuel r c)
  unfolding pump_inbound_responses
  pump_inbound_responses-Returned zero r c h = absurd (omega arith)
  pump_inbound_responses-Returned (suc fuel) r c h =
      elim (Io-cases (read_streaming_frame recv show_read codecs r)) [
        | inr (e, s, d) ↦ rw d (_, refl)
        | inl (none, s, d) ↦ rw d (_, refl)
        | inl (some f, s, d) ↦ rw d (
            on_response-Returned (pump_inbound_responses recv show_read codecs debug_frame tx fuel)
              f s c
              (λ x.
                pump_inbound_responses-Returned fuel s x
                  (omega (arith, read_streaming_frame-progress laws show_read codecs r s f d))))
      ]
