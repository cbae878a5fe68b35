-- ===== src/StreamingCall/WholeCall.antt =====
-- A streaming call from the caller's first chunk to its last item, with the tasks of the client in any
-- order: src/client.rs, src/server.rs and src/streaming.rs together.
use nerw_rpc.Prelude.{
  ℕ, ◌≤◌, ◌<◌, List, [], ◌∷◌, ◌++◌, append_assoc, append-nil, ◌≡◌, ap, sym, ◌∙◌, some, true, length,
  drop,
}
use nerw_rpc.Prelude.Text.{Text}
use nerw_rpc.Result.{ok}
use nerw_rpc.Wire.{max_streaming_payload_len, opcode_streaming_open_request}
use nerw_rpc.Registry.{MethodRegistry, lookup_streaming}
use nerw_rpc.Context.Inbound.{Arrival, build_inbound_context}
use nerw_rpc.External.Leb128.{Leb128, Leb128Laws, groups}
use nerw_rpc.External.Quic.{RecvStream, RecvLaws, SendStream, SendLaws, ReadExactError}
use nerw_rpc.Streaming.{StreamingFrame, StreamingOpenRequest, Codecs, accepted}
use nerw_rpc.Streaming.Format.{CodecsLaws, IsFrameOf}
use nerw_rpc.Streaming.Sequence.{AreFramesOf}
use nerw_rpc.Server.Streaming.{StreamingMethodHandler, handle_streaming_substream}
use nerw_rpc.Client.Tasks.{ClientCall, channels_live, pumped, Reached}
use nerw_rpc.Client.Tasks.Outbound.{Reached-pump_outbound_requests}
use nerw_rpc.Client.Tasks.Closing.{IsClosedFrom}
use nerw_rpc.StreamingCall.Requests.{request_frames, delivered, pump_outbound_requests-written}
use nerw_rpc.StreamingCall.Responses.{answers}
use nerw_rpc.StreamingCall.Items.{items_of}
use nerw_rpc.StreamingCall.EndToEnd.{ack, handle_streaming_substream-registered}
use nerw_rpc.StreamingCall.Yields.{Reached-yields}

append-cancel : (a b c : List ℕ) → a ++ b ≡ a ++ c → b ≡ c
append-cancel [] b c e = e
append-cancel (x ∷ a) b c e = append-cancel a b c (ap (drop 1) e)

-- The client has the halves `recv` and `send` of the substream, and the server `inbound` and `outbound`.
module _ {R S P Q W U : Type 0} {recv : RecvStream R} (recvs : RecvLaws recv) {send : SendStream S}
    (sends : SendLaws send) {inbound : RecvStream P} (inbounds : RecvLaws inbound)
    {outbound : SendStream Q} (outbounds : SendLaws outbound) {l : Leb128} (laws : Leb128Laws l)
    (show_read : ReadExactError → Text) (debug_strings : List Text → Text)
    (debug_frame : StreamingFrame → Text) {c : Codecs} (codecs_laws : CodecsLaws c)
    (registry : MethodRegistry U (StreamingMethodHandler W)) (a : Arrival) where
  -- What the client wrote of the call, once its task of the requests has returned.
  written-requests :
      (r₀ : R) (s₀ s : S) (t : ClientCall R S) (wire : List ℕ)
      → Reached recv send l show_read c debug_frame (channels_live r₀ s₀) t
      → t.request_task ≡ pumped s
      → AreFramesOf c (request_frames t.sent) wire
      → sends.is_open s₀ ≡ true
      → sends.written s ≡ sends.written s₀ ++ wire
  written-requests r₀ s₀ s t wire reached returned are o =
      let (_, _, _, sequential) =
        Reached-pump_outbound_requests recv send l show_read c debug_frame r₀ s₀ t reached in
      rw (sequential s returned) at
        ((pump_outbound_requests-written sends laws c t.sent wire s₀ are o).0)

  -- A client opened a registered streaming method, and its tasks and the caller went on, in any
  -- order of their steps, to a state in which the task of the requests has returned and the caller
  -- has not dropped its stream. The server was given exactly what the client wrote, all payloads
  -- are within the limit of 8 MiB, and the client will be given exactly what the server writes.
  -- Then the server handles the substream to its end, with one run of the handler on the chunks
  -- that the caller sent, in their order; and from that state the call can go on to an end at which
  -- the caller has exactly the chunks that the handler sent before its first error, then that
  -- error, or how the handler failed, or nothing if it ended well. The server's fuel is enough if
  -- it is above the number of chunks.
  pub whole_call :
      (request : StreamingOpenRequest) (h : StreamingMethodHandler W) (body : List ℕ) (fuel : ℕ)
      (r₀ : R) (s₀ s : S) (t : ClientCall R S) (p : P) (q : Q) (w : W)
      (request_wire ack_wire answer_wire : List ℕ)
      → lookup_streaming request.method_name registry ≡ some h
      → c.open_request.to_allocvec request ≡ ok body
      → length body ≤ max_streaming_payload_len
      → sends.written s₀ ≡ opcode_streaming_open_request ∷ (groups 9 (length body) ++ body)
      → sends.is_open s₀ ≡ true
      → Reached recv send l show_read c debug_frame (channels_live r₀ s₀) t
      → t.request_task ≡ pumped s
      → t.is_receiving ≡ true
      → AreFramesOf c (request_frames t.sent) request_wire
      → length t.sent < fuel
      → sends.written s ≡ opcode_streaming_open_request ∷ inbounds.pending p
      → outbounds.written q ≡ []
      → outbounds.is_open q ≡ true
      → IsFrameOf c (ack accepted request.request_id) ack_wire
      → let run = h (build_inbound_context a) (delivered t.sent) w in
        AreFramesOf c (answers debug_strings run.0.responses run.0.outcome) answer_wire
        → ((v : Q) (x : W)
            → handle_streaming_substream inbound outbound l show_read debug_strings debug_frame c
                registry a fuel p q w
              ≡ some (v, x)
            → outbounds.written v ≡ ack_wire ++ recvs.pending r₀)
        → ((v : Q) × (handle_streaming_substream inbound outbound l show_read debug_strings
                debug_frame c registry a fuel p q w
              ≡ some (v, run.1)))
          × ((u : ClientCall R S) × Reached recv send l show_read c debug_frame t u
              × IsClosedFrom recv send l show_read c debug_frame t u
              × (u.yielded ≡ items_of debug_strings run.0.responses run.0.outcome))
  whole_call request h body fuel r₀ s₀ s t p q w request_wire ack_wire answer_wire known enc small
        opened still_open reached returned receiving are_requests enough arrives fresh live acked
        are_answers arrives_back =
      let run = h (build_inbound_context a) (delivered t.sent) w in
      let sent = written-requests r₀ s₀ s t request_wire reached returned are_requests still_open in
      let whole =
        ap (drop 1) (sym arrives ∙ sent ∙ ap (λ b. b ++ request_wire) opened)
        ∙ append_assoc (groups 9 (length body)) body request_wire in
      let (v, e, written, _) =
        handle_streaming_substream-registered inbounds outbounds laws show_read debug_strings
          debug_frame codecs_laws registry a request t.sent h fuel p q w ack_wire answer_wire known
          (body, request_wire, enc, small, are_requests, whole) enough live acked are_answers in
      let back =
        append-cancel ack_wire (recvs.pending r₀) answer_wire (
          sym (arrives_back v run.1 e)
          ∙ written
          ∙ ap (λ b. b ++ (ack_wire ++ answer_wire)) fresh) in
      let (yields, _) =
        Reached-yields recvs send l show_read debug_frame r₀ s₀ codecs_laws debug_strings
          run.0.responses run.0.outcome answer_wire [] t are_answers
          (back ∙ sym (append-nil answer_wire)) reached receiving in
      ((v, e), yields)
