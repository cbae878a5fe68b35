-- ===== src/StreamingCall/OverNetwork.antt =====
-- The opening of a streaming call over a network whose peer runs the server.
use nerw_rpc.Prelude.{
  ℕ, ◌+◌, ◌%◌, ◌^◌, ◌≤◌, List, [], ◌++◌, append-nil, ◌≡◌, refl, ap, ◌∙◌, Option, none, some, true,
  length, arith,
}
use nerw_rpc.Prelude.Text.{Text, utf8}
use nerw_rpc.Result.{ok, err}
use nerw_rpc.Io.{◌>>=◌, lift}
use nerw_rpc.Error.{RpcError, RpcResult}
use nerw_rpc.WireError.{WireError}
use nerw_rpc.Wire.{max_streaming_payload_len, opcode_streaming_open_request}
use nerw_rpc.Transport.{alpn_nerw_rpc_1_0_0}
use nerw_rpc.Registry.{MethodRegistry, lookup_streaming}
use nerw_rpc.Context.{NodeId}
use nerw_rpc.Context.Inbound.{Arrival}
use nerw_rpc.External.Leb128.{Leb128, Leb128Laws, groups, write-groups}
use nerw_rpc.External.Link.{StreamLink}
use nerw_rpc.External.Network.{Network}
use nerw_rpc.External.Postcard.{Postcard}
use nerw_rpc.External.Quic.{RecvStream, RecvLaws, SendStream, SendLaws, ReadExactError}
use nerw_rpc.Streaming.{
  StreamingFrame, StreamingOpenRequest, StreamingOpenStatus, Codecs, accepted, rejected,
}
use nerw_rpc.Streaming.Write.{write_encoded, write_length_prefixed}
use nerw_rpc.Streaming.Format.{CodecsLaws, IsFrameOf}
use nerw_rpc.Streaming.Read.Frames.{after_opcode-prefixed, read_streaming_frame-pending}
use nerw_rpc.Streaming.RoundTrip.{write_frame-Wrote}
use nerw_rpc.Server.Streaming.{
  StreamingMethodHandler, acknowledge, on_open, streaming_negotiate_open,
}
use nerw_rpc.Client.{open_substream}
use nerw_rpc.Client.Streaming.{check_ack, call_streaming}
use nerw_rpc.StreamingCall.EndToEnd.{ack}

-- The acknowledgement for what the registry has under the name, and the client's result.
abbrev pub status_for : {A : Type 0} → Option A → Text → StreamingOpenStatus
status_for (some _) name = accepted
status_for none name = rejected (utf8 "unknown streaming method: " ++ name)

abbrev pub result_for : {A B : Type 0} → Option A → Text → B → RpcResult B
result_for (some _) name stream = ok stream
result_for none name stream = err (RpcError.unknown_method name)

module _ {H B N : Type 0} (debug_ack : Option StreamingFrame → Text) (name : Text) (id : ℕ)
    (stream : B) (n : N) where
  check_ack-status_for :
      (o : Option H)
      → (lift (check_ack debug_ack (some (ack (status_for o name) id))) >>= λ _. lift (ok stream)) n
        ≡ (result_for o name stream, n)
  unfolding check_ack
  check_ack-status_for (some h) = refl
  check_ack-status_for none = refl

module _ {R S W U : Type 0} {recv : RecvStream R} (recvs : RecvLaws recv) {send : SendStream S}
    (sends : SendLaws send) {l : Leb128} (laws : Leb128Laws l) (show_read : ReadExactError → Text)
    (debug_strings : List Text → Text) (debug_frame : StreamingFrame → Text) {c : Codecs}
    (codecs_laws : CodecsLaws c) (registry : MethodRegistry U (StreamingMethodHandler W))
    (a : Arrival) where
  -- What the server does with its sending half when the open request arrives.
  abbrev pub negotiated : R → S → S
  negotiated r s =
      (streaming_negotiate_open recv send l show_read debug_strings debug_frame c registry a s
        r).0.1

  -- The acknowledgement that the server writes, by what the registry has.
  acknowledge-written :
      (o : Option (StreamingMethodHandler W)) (name : Text) (id : ℕ) (wire : List ℕ) (s : S)
      → IsFrameOf c (ack (status_for o name) id) wire
      → sends.is_open s ≡ true
      → sends.written
          (acknowledge recv send l show_read debug_strings debug_frame c registry a o name id s).1
        ≡ sends.written s ++ wire
  acknowledge-written (some h) name id wire s i live =
      let (t, e, w, u) = write_frame-Wrote sends laws c (ack accepted id) wire s i live in rw e w
  acknowledge-written none name id wire s i live =
      let (t, e, w, u) = write_frame-Wrote sends laws c (ack _ id) wire s i live in
      let (v, f, x, y) = sends.finish-written t u in rw (e, f) (x ∙ w)

  negotiated-written :
      (request : StreamingOpenRequest) (body wire : List ℕ) (r : R) (s : S)
      → c.open_request.to_allocvec request ≡ ok body
      → length body ≤ max_streaming_payload_len
      → IsFrameOf c
          (ack
            (status_for (lookup_streaming request.method_name registry) request.method_name)
            request.request_id)
          wire
      → recvs.pending r ≡ groups 9 (length body) ++ body
      → sends.is_open s ≡ true
      → sends.written (negotiated r s) ≡ sends.written s ++ wire
  unfolding streaming_negotiate_open
  negotiated-written request body wire r s enc small i p live =
      let whole : recvs.pending r ≡ groups 9 (length body) ++ (body ++ []) =
        rw (append-nil body) p in
      let (r1, e1, q1) =
        after_opcode-prefixed recvs show_read codecs_laws (StreamingFrame.open_request request) body
          [] r (ap (λ x. some x) enc) small whole in
      let then_written : RpcResult StreamingFrame × R → List ℕ = λ x.
        sends.written
          (on_open recv send l show_read debug_strings debug_frame c registry a x.0 s).1 in
      ap then_written e1
      ∙ acknowledge-written (lookup_streaming request.method_name registry) request.method_name
          request.request_id wire s i live

  module _ {N : Type 0} (net : Network N) (p : Postcard WireError) (show_node : NodeId → Text)
      (debug_ack : Option StreamingFrame → Text) (peer : NodeId)
      (link : StreamLink net recvs sends negotiated opcode_streaming_open_request peer
        alpn_nerw_rpc_1_0_0) where
    -- A client opens a streaming call over a network whose peer runs the server, and postcard encodes
    -- the open request and the acknowledgement within the limit of 8 MiB. The call returns the
    -- substream if the registry has a streaming method of that name, and otherwise the error for an
    -- unknown method with the name that was asked for. The next call takes the next request id.
    pub call_streaming-lookup :
        (name : Text) (next_id : ℕ) (n : N) (body wire : List ℕ)
        → c.open_request.to_allocvec (record { method_name = name; request_id = next_id }) ≡ ok body
        → length body ≤ max_streaming_payload_len
        → IsFrameOf c (ack (status_for (lookup_streaming name registry) name) next_id) wire
        → (stream : net.Stream) × (m : N) × (call_streaming net l p c show_node show_read debug_ack
              peer name next_id n
            ≡ (result_for (lookup_streaming name registry) name stream, (next_id + 1) % 2 ^ 64, m))
    unfolding call_streaming open_substream write_encoded write_length_prefixed
    call_streaming-lookup name next_id n body wire enc small i =
        let request : StreamingOpenRequest = record { method_name = name; request_id = next_id } in
        let found = lookup_streaming name registry in
        let frame = groups 9 (length body) ++ body in
        let (stream, n1, e1, f1) = link.open-fresh n in
        let (later, n2, e2, p2) = link.write_all-answered stream frame n1 f1 in
        let wrote =
          negotiated-written request body wire (link.receiving frame) link.sending enc small i
            (link.receiving-pending frame) link.sending-open in
        let acked : (link.incoming stream).pending n2 ≡ wire ++ later =
          p2 ∙ ap (λ b. b ++ later) (rw link.sending-written at wrote) in
        let (n3, e3, q3) =
          read_streaming_frame-pending (link.incoming stream) show_read codecs_laws
            (ack (status_for found name) next_id) wire later n2 i acked in
        let numbered : RpcResult net.Stream × N → RpcResult net.Stream × ℕ × N =
          λ x. (x.0, (next_id + 1) % 2 ^ 64, x.1) in
        (
          stream,
          n3,
          rw (e1, enc, write-groups laws (length body) (omega arith), e2, e3)
              (ap numbered (check_ack-status_for debug_ack name next_id stream n3 found)),
        )
