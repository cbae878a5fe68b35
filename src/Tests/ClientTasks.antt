-- ===== src/Tests/ClientTasks.antt =====
-- The tasks of a streaming call on the client at concrete inputs.
use nerw_rpc.Prelude.{
  ℕ, ◌≤◌, List, [], ◌∷◌, ◌++◌, ◌≡◌, ◌≢◌, refl, ap, ◌∙◌, arith, some, true, false,
}
use nerw_rpc.Result.{ok}
use nerw_rpc.External.Leb128.{groups}
use nerw_rpc.Streaming.{StreamingFrame}
use nerw_rpc.Client.Streaming.{pump_outbound_requests}
use nerw_rpc.Client.Tasks.{
  ClientCall, channels_live, pumping, pumped, reading, closed, send_request, drop_sender,
  write_request, end_requests, read_frame, deliver, take_response, Reached, here, next,
}
use nerw_rpc.Client.Tasks.Outbound.{Reached-pump_outbound_requests}
use nerw_rpc.Client.Tasks.Closing.{IsClosedFrom, CanClose}
use nerw_rpc.StreamingCall.Items.{items_of}
use nerw_rpc.StreamingCall.EndToEnd.{handle_streaming_substream-registered}
use nerw_rpc.StreamingCall.WholeCall.{whole_call}
use nerw_rpc.Server.Streaming.{handle_streaming_substream}
use nerw_rpc.StreamingCall.Yields.{Reached-CanClose, Reached-yields}
use nerw_rpc.Tests.Instances.Leb128.{leb128, leb128_laws}
use nerw_rpc.Tests.Instances.Quic.{recv, recv_laws, send, send_laws, fresh_sent, Sent}
use nerw_rpc.Tests.Instances.Codecs.{codecs, codecs_laws}
use nerw_rpc.Tests.Instances.Shown.{arrival, show_read, debug, debug_frame}
use nerw_rpc.Tests.Streaming.{chunk, response_wire, responses_sent, requests_sent}
use nerw_rpc.Tests.Calls.{
  feed, feed_name, registry, open_feed, call_of, requests_wire, ack_wire-IsFrameOf,
}

-- A chunk of the server and its end, which are pending at first.
abbrev pending : List ℕ
pending = response_wire ++ (0x31 ∷ []) ++ []

-- The client has written the open request.
abbrev opened : Sent
opened = record { bytes = 0x10 ∷ 14 ∷ 12 ∷ (feed_name ++ (1 ∷ [])); live = true }

abbrev all_written : Sent
all_written = record { bytes = 0x10 ∷ 14 ∷ 12 ∷ (feed_name ++ (1 ∷ requests_wire)); live = false }

abbrev start : ClientCall (List ℕ) Sent
start = channels_live pending opened

-- The caller was given the chunk of the server, and has sent one of its own, which was written with
-- the end of the requests.
abbrev underway : ClientCall (List ℕ) Sent
underway = record {
  is_sending = false;
  sent = chunk ∷ [];
  requests = [];
  request_task = pumped all_written;
  response_task = reading (0x31 ∷ []);
  responses = [];
  yielded = ok chunk ∷ [];
  is_receiving = true;
}

underway-Reached : Reached recv send leb128 show_read codecs debug_frame start underway
unfolding nerw_rpc.Streaming.Read.read_streaming_frame
    nerw_rpc.Streaming.Read.read_streaming_frame_after_opcode nerw_rpc.Streaming.Read.read_chunk
    nerw_rpc.Streaming.Read.read_length_prefixed nerw_rpc.Streaming.Read.read_varint_u64
    nerw_rpc.Streaming.Read.varint_loop nerw_rpc.Streaming.Read.add_group
    nerw_rpc.Streaming.Read.read_body nerw_rpc.Streaming.Write.write_single_opcode
    nerw_rpc.Streaming.Write.write_length_prefixed groups
underway-Reached =
    next
      (next
        (next
          (next
            (next (next (next here (send_request chunk opened refl refl (omega arith))) drop_sender)
              (read_frame pending refl))
            (write_request chunk [] opened refl refl))
          (end_requests
            (record {
              bytes = 0x10 ∷ 14 ∷ 12 ∷ (feed_name ++ (1 ∷ 0x20 ∷ 2 ∷ 5 ∷ 6 ∷ []));
              live = true;
            })
            refl refl refl))
        (deliver (ok chunk) _ (0x31 ∷ []) refl refl (omega arith)))
      (take_response (ok chunk) [] refl refl)

Reached-pump_outbound_requests_example :
    (0 ≤ 16)
    × (0 ≤ 16)
    × ((r : List ℕ) (s : Sent)
        → underway.response_task ≡ closed r
        → underway.request_task ≢ pumping s)
    × ((s : Sent)
        → underway.request_task ≡ pumped s
        → pump_outbound_requests send leb128 (chunk ∷ []) opened ≡ s)
Reached-pump_outbound_requests_example =
    Reached-pump_outbound_requests recv send leb128 show_read codecs debug_frame pending opened
      underway underway-Reached

Reached-CanClose_example : CanClose recv send leb128 show_read codecs debug_frame underway
Reached-CanClose_example =
    Reached-CanClose recv_laws send leb128 show_read debug_frame pending opened codecs underway
      underway-Reached refl

Reached-yields_example :
    ((u : ClientCall (List ℕ) Sent) × Reached recv send leb128 show_read codecs debug_frame underway
        u
      × IsClosedFrom recv send leb128 show_read codecs debug_frame underway u
      × (u.yielded ≡ items_of debug (ok chunk ∷ []) (ok (ok tt))))
    × ((r : List ℕ)
        → underway.response_task ≡ closed r
        → (ok chunk ∷ []) ++ [] ≡ items_of debug (ok chunk ∷ []) (ok (ok tt)))
Reached-yields_example =
    Reached-yields recv_laws send leb128 show_read debug_frame pending opened codecs_laws debug
      (ok chunk ∷ []) (ok (ok tt)) (response_wire ++ (0x31 ∷ [])) [] underway responses_sent refl
      underway-Reached refl

-- What the server writes of the call.
feed_written :
    (v : Sent) (x : ℕ)
    → handle_streaming_substream recv send leb128 show_read debug debug_frame codecs registry
        arrival 2
        (call_of feed_name)
        fresh_sent
        4
      ≡ some (v, x)
    → v.bytes ≡ (0x11 ∷ 2 ∷ 0 ∷ 1 ∷ []) ++ pending
unfolding groups nerw_rpc.Registry.lookup_streaming
feed_written v x e =
    let (t, d, written, _) =
      handle_streaming_substream-registered recv_laws send_laws leb128_laws show_read debug
        debug_frame codecs_laws registry arrival open_feed (chunk ∷ []) feed 2 (call_of feed_name)
        fresh_sent 4 (0x11 ∷ 2 ∷ 0 ∷ 1 ∷ []) (response_wire ++ (0x31 ∷ [])) refl
        (12 ∷ (feed_name ++ (1 ∷ [])), requests_wire, refl, omega arith, requests_sent, refl)
        (omega arith) refl ack_wire-IsFrameOf responses_sent in
    let same : v ≡ t = cc (d, e) in ap (λ y. y.bytes) same ∙ written

whole_call_example :
    ((v : Sent) × (handle_streaming_substream recv send leb128 show_read debug debug_frame codecs
          registry arrival 2
          (call_of feed_name)
          fresh_sent
          4
        ≡ some (v, 5)))
    × ((u : ClientCall (List ℕ) Sent) × Reached recv send leb128 show_read codecs debug_frame
          underway u
        × IsClosedFrom recv send leb128 show_read codecs debug_frame underway u
        × (u.yielded ≡ items_of debug (ok chunk ∷ []) (ok (ok tt))))
unfolding groups nerw_rpc.Registry.lookup_streaming
whole_call_example =
    whole_call recv_laws send_laws recv_laws send_laws leb128_laws show_read debug debug_frame
      codecs_laws registry arrival open_feed feed (12 ∷ (feed_name ++ (1 ∷ []))) 2 pending opened
      all_written underway (call_of feed_name) fresh_sent 4 requests_wire (0x11 ∷ 2 ∷ 0 ∷ 1 ∷ [])
      (response_wire ++ (0x31 ∷ [])) refl refl (omega arith) refl refl underway-Reached refl refl
      requests_sent (omega arith) refl refl refl ack_wire-IsFrameOf responses_sent feed_written
