-- ===== src/StreamingCall/Total.antt =====
-- Every inbound substream on a finite stream is handled to its end.
use nerw_rpc.Prelude.{
  ℕ, ◌<◌, List, [], ◌≡◌, refl, arith, Option, none, some, if◌then◌else◌, length, Bool, true, false,
  inl, inr,
}
use nerw_rpc.Prelude.Text.{Text}
use nerw_rpc.Result.{ok}
use nerw_rpc.WireError.{WireError}
use nerw_rpc.Wire.{opcode_streaming_open_request}
use nerw_rpc.Registry.{MethodRegistry}
use nerw_rpc.Context.{RpcContext}
use nerw_rpc.Context.Inbound.{Arrival}
use nerw_rpc.Io.{Io-cases}
use nerw_rpc.External.Leb128.{Leb128}
use nerw_rpc.External.Quic.{RecvStream, RecvLaws, SendStream, ReadExactError}
use nerw_rpc.External.Channel.{collect}
use nerw_rpc.External.Postcard.{Postcard}
use nerw_rpc.Streaming.{StreamingFrame, Codecs}
use nerw_rpc.Streaming.Read.{read_streaming_frame_after_opcode}
use nerw_rpc.Streaming.Read.Progress.{after_opcode-Shrinks, read_exact-ok}
use nerw_rpc.Server.Dispatch.{MethodHandler}
use nerw_rpc.Server.Streaming.{
  StreamingMethodHandler, after_negotiation, on_open, streaming_negotiate_open,
  handle_streaming_substream,
}
use nerw_rpc.Server.Inbound.{handle_inbound_substream}
use nerw_rpc.StreamingCall.Termination.{pump_inbound_requests-Returned}

module _ {R S W : Type 0} {recv : RecvStream R} (laws : RecvLaws recv) (send : SendStream S)
    (l : Leb128) (show_utf8 : Text → Text) (show_read : ReadExactError → Text)
    (debug_strings : List Text → Text) (debug_frame : StreamingFrame → Text)
    (p : Postcard WireError) (codecs : Codecs)
    (registry : MethodRegistry (MethodHandler W) (StreamingMethodHandler W)) (a : Arrival) where
  -- The substream was handled.
  abbrev pub Handled : Option (S × W) → Type 0
  Handled o = (out : S × W) × (o ≡ some out)

  after_negotiation-Handled :
      (fuel : ℕ) (n : Option (StreamingMethodHandler W × RpcContext)) (s : S) (r : R) (w : W)
      → length (laws.pending r) < fuel
      → Handled (
          after_negotiation recv send l show_read debug_strings debug_frame codecs registry a fuel
            ((n, s), r)
            w)
  after_negotiation-Handled fuel none s r w h = (_, refl)
  after_negotiation-Handled fuel (some (handler, ctx)) s r w h =
      let (out, e) =
        pump_inbound_requests-Returned laws show_read codecs debug_frame collect fuel r [] h in
      rw e (_, refl)

  handle_streaming_substream-Handled :
      (fuel : ℕ) (r : R) (s : S) (w : W)
      → length (laws.pending r) < fuel
      → Handled (
          handle_streaming_substream recv send l show_read debug_strings debug_frame codecs registry
            a fuel r s w)
  unfolding handle_streaming_substream streaming_negotiate_open
  handle_streaming_substream-Handled fuel r s w h =
      elim (Io-cases
        (read_streaming_frame_after_opcode recv show_read codecs opcode_streaming_open_request r)) [
          | inr (e, t, d) ↦ rw d (_, refl)
          | inl (f, t, d) ↦
              let n =
                on_open recv send l show_read debug_strings debug_frame codecs registry a (ok f)
                  s in
              let shrinks =
                after_opcode-Shrinks laws show_read codecs opcode_streaming_open_request r t f d in
              rw d (after_negotiation-Handled fuel n.0 n.1 t w (omega (arith, shrinks)))
        ]

  if-Handled :
      (b : Bool) (x y : Option (S × W)) → Handled x → Handled y → Handled (if b then x else y)
  if-Handled true x y hx hy = hx
  if-Handled false x y hx hy = hy

  -- Whatever bytes a client sends on a substream before it finishes, the server handles the
  -- substream to its end, unary or streaming, known or unknown, well formed or not, if its fuel is
  -- above the number of bytes.
  pub handle_inbound_substream-Handled :
      (fuel : ℕ) (r : R) (s : S) (w : W)
      → length (laws.pending r) < fuel
      → Handled (
          handle_inbound_substream recv send l show_utf8 show_read debug_strings debug_frame p
            codecs registry a fuel r s w)
  unfolding handle_inbound_substream
  handle_inbound_substream-Handled fuel r s w h = elim (Io-cases (recv.read_exact 1 r)) [
    | inr (e, t, d) ↦ rw d (_, refl)
    | inl (buf, t, d) ↦
        let shrinks = read_exact-ok laws 1 r t buf d in
        rw d (
          if-Handled _ _ _ (handle_streaming_substream-Handled fuel t s w (omega (arith, shrinks)))
            (if-Handled _ _ _ (_, refl) (_, refl)))
  ]
