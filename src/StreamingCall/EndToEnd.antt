-- ===== src/StreamingCall/EndToEnd.antt =====
-- A streaming call over streams that deliver.
use nerw_rpc.Prelude.{
  ℕ, ◌≤◌, ◌<◌, List, [], ◌++◌, append_assoc, append-nil, ◌≡◌, refl, sym, ap, ◌∙◌, Option, none,
  some, true, false, length,
}
use nerw_rpc.Prelude.Text.{Text, utf8}
use nerw_rpc.Result.{ok, err}
use nerw_rpc.Error.{RpcError}
use nerw_rpc.Wire.{max_streaming_payload_len}
use nerw_rpc.Registry.{MethodRegistry, lookup_streaming}
use nerw_rpc.Context.Inbound.{Arrival, build_inbound_context}
use nerw_rpc.External.Leb128.{Leb128, Leb128Laws, groups}
use nerw_rpc.External.Quic.{RecvStream, RecvLaws, SendStream, SendLaws, ReadExactError}
use nerw_rpc.Streaming.{
  StreamingFrame, StreamingOpenRequest, StreamingOpenStatus, Codecs, accepted, rejected,
}
use nerw_rpc.Streaming.Format.{CodecsLaws, IsFrameOf}
use nerw_rpc.Streaming.Sequence.{AreFramesOf}
use nerw_rpc.Streaming.Read.Frames.{after_opcode-prefixed}
use nerw_rpc.Streaming.RoundTrip.{write_frame-Wrote}
use nerw_rpc.Server.Streaming.{
  StreamingMethodHandler, HandlerRun, handle_streaming_substream, streaming_negotiate_open, respond,
}
use nerw_rpc.StreamingCall.Requests.{request_frames, delivered, pump_inbound_requests-frames}
use nerw_rpc.Client.Streaming.{check_ack}
use nerw_rpc.StreamingCall.Responses.{answers, unfinished, unfinished-written}

-- The acknowledgement of a call.
abbrev pub ack : StreamingOpenStatus → ℕ → StreamingFrame
ack st id = StreamingFrame.open_response (record { status = st; request_id = id })

module _ {R S W U : Type 0} {recv : RecvStream R} (recvs : RecvLaws recv) {send : SendStream S}
    (sends : SendLaws send) {l : Leb128} (laws : Leb128Laws l) (show_read : ReadExactError → Text)
    (debug_strings : List Text → Text) (debug_frame : StreamingFrame → Text) {c : Codecs}
    (codecs_laws : CodecsLaws c) (registry : MethodRegistry U (StreamingMethodHandler W))
    (a : Arrival) where
  -- The open request, without its opcode, and then the frames of the chunks are pending.
  abbrev pub Requested : StreamingOpenRequest → List (List ℕ) → List ℕ → Type 0
  Requested request chunks bytes =
      (body : List ℕ) × (wire : List ℕ) × (c.open_request.to_allocvec request ≡ ok body)
      × (length body ≤ max_streaming_payload_len)
      × AreFramesOf c (request_frames chunks) wire
      × (bytes ≡ groups 9 (length body) ++ (body ++ wire))

  -- The handler's run behind the acknowledgement.
  respond-written :
      (run : HandlerRun) (wire : List ℕ) (s : S)
      → AreFramesOf c (answers debug_strings run.responses run.outcome) wire
      → sends.is_open s ≡ true
      → (sends.written (respond recv send l show_read debug_strings debug_frame c registry a run s)
          ≡ sends.written s ++ wire)
        × (sends.is_open
              (respond recv send l show_read debug_strings debug_frame c registry a run s)
            ≡ false)
  respond-written run wire s i o =
      let (w, u) =
        unfinished-written sends laws debug_strings c run.responses run.outcome wire s i o in
      let (t, e, x, y) =
        sends.finish-written (unfinished sends laws debug_strings c run.responses run.outcome s)
          u in
      (ap (λ z. sends.written z.1) e ∙ x ∙ w, ap (λ z. sends.is_open z.1) e ∙ y)

  -- A client opened a registered streaming method and sent its chunks, each within the limit of
  -- 8 MiB. The server acknowledges the call, runs the handler once, on exactly these chunks in their
  -- order, writes a chunk for every response up to the first error and then one frame that ends the
  -- stream, and finishes. The fuel is enough if it is above the number of chunks.
  pub handle_streaming_substream-registered :
      (request : StreamingOpenRequest) (chunks : List (List ℕ)) (h : StreamingMethodHandler W)
      (fuel : ℕ) (r : R) (s : S) (w : W) (ack_wire wire : List ℕ)
      → lookup_streaming request.method_name registry ≡ some h
      → Requested request chunks (recvs.pending r)
      → length chunks < fuel
      → sends.is_open s ≡ true
      → IsFrameOf c (ack accepted request.request_id) ack_wire
      → let run = h (build_inbound_context a) (delivered chunks) w in
        AreFramesOf c (answers debug_strings run.0.responses run.0.outcome) wire
        → (t : S) × (handle_streaming_substream recv send l show_read debug_strings debug_frame c
              registry a fuel r s w
            ≡ some (t, (h (build_inbound_context a) (delivered chunks) w).1))
          × (sends.written t ≡ sends.written s ++ (ack_wire ++ wire))
          × (sends.is_open t ≡ false)
  unfolding handle_streaming_substream streaming_negotiate_open
  handle_streaming_substream-registered request chunks h fuel r s w ack_wire wire known
        (body, sent, enc, small, frames, p) f o i is =
      let run = h (build_inbound_context a) (delivered chunks) w in
      let (r1, e1, q1) =
        after_opcode-prefixed recvs show_read codecs_laws (StreamingFrame.open_request request) body
          sent r (ap (λ x. some x) enc) small p in
      let (r2, e2, q2) =
        pump_inbound_requests-frames recvs show_read codecs_laws debug_frame chunks fuel sent [] r1
          [] f frames (q1 ∙ sym (append-nil sent)) in
      let (t, e3, w3, u3) =
        write_frame-Wrote sends laws c (ack accepted request.request_id) ack_wire s i o in
      let (w4, u4) = respond-written run.0 wire t is u3 in
      (
        respond recv send l show_read debug_strings debug_frame c registry a run.0 t,
        rw (e1, known, e3, e2) refl,
        w4 ∙ ap (λ b. b ++ wire) w3 ∙ append_assoc (sends.written s) ack_wire wire,
        u4,
      )

  -- A client opened a streaming method that the registry does not have. The server refuses the call,
  -- finishes the stream and runs no handler, and the client makes of the refusal the error for an
  -- unknown method, with the name that it asked for.
  pub handle_streaming_substream-unknown :
      (request : StreamingOpenRequest) (chunks : List (List ℕ)) (fuel : ℕ) (r : R) (s : S) (w : W)
      (wire : List ℕ) (debug_ack : Option StreamingFrame → Text)
      → lookup_streaming request.method_name registry ≡ none
      → Requested request chunks (recvs.pending r)
      → sends.is_open s ≡ true
      → let refusal =
          ack
            (rejected (utf8 "unknown streaming method: " ++ request.method_name))
            request.request_id in
        IsFrameOf c refusal wire
        → ((t : S) × (handle_streaming_substream recv send l show_read debug_strings debug_frame c
                registry a fuel r s w
              ≡ some (t, w))
            × (sends.written t ≡ sends.written s ++ wire)
            × (sends.is_open t ≡ false))
          × (check_ack debug_ack (
                some (
                  ack
                    (rejected (utf8 "unknown streaming method: " ++ request.method_name))
                    request.request_id))
              ≡ err (RpcError.unknown_method request.method_name))
  unfolding handle_streaming_substream streaming_negotiate_open check_ack
  handle_streaming_substream-unknown request chunks fuel r s w wire debug_ack unknown
        (body, sent, enc, small, frames, p) o i =
      let (r1, e1, q1) =
        after_opcode-prefixed recvs show_read codecs_laws (StreamingFrame.open_request request) body
          sent r (ap (λ x. some x) enc) small p in
      let (t, e3, w3, u3) = write_frame-Wrote sends laws c (ack _ request.request_id) wire s i o in
      let (v, e4, w4, u4) = sends.finish-written t u3 in
      ((v, rw (e1, unknown, e3, e4) refl, w4 ∙ w3, u4), refl)
