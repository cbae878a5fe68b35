-- ===== src/Tests/Calls.antt =====
-- Whole streaming calls, and the limit on their frames, at concrete inputs.
use nerw_rpc.Prelude.{ℕ, ◌+◌, List, [], ◌∷◌, ◌++◌, ◌≡◌, refl, arith, false, some}
use nerw_rpc.Prelude.Text.{Text, utf8}
use nerw_rpc.Result.{ok, err}
use nerw_rpc.Error.{RpcError}
use nerw_rpc.Registry.{MethodRegistry, HandlerEntry, lookup_streaming}
use nerw_rpc.External.Leb128.{groups}
use nerw_rpc.Streaming.{StreamingOpenRequest, accepted, rejected}
use nerw_rpc.Streaming.Format.{IsFrameOf, prefixed}
use nerw_rpc.Server.Streaming.{StreamingMethodHandler, handle_streaming_substream}
use nerw_rpc.Client.Streaming.{check_ack}
use nerw_rpc.StreamingCall.EndToEnd.{
  ack, handle_streaming_substream-registered, handle_streaming_substream-unknown,
}
use nerw_rpc.Tests.Instances.Leb128.{leb128, leb128_laws}
use nerw_rpc.Tests.Instances.Quic.{recv, recv_laws, send, send_laws, fresh_sent, Sent}
use nerw_rpc.Tests.Instances.Codecs.{codecs, codecs_laws}
use nerw_rpc.Tests.Instances.Shown.{arrival, show_read, debug, debug_frame}
use nerw_rpc.Tests.Streaming.{chunk, response_wire, responses_sent, requests_sent}

-- The state counts the calls of the handler, which answers with one chunk.
abbrev pub feed : StreamingMethodHandler ℕ
feed ctx requests calls = (record { responses = ok chunk ∷ []; outcome = ok (ok tt) }, calls + 1)

abbrev pub feed_name : Text
feed_name = utf8 "t:e@1/i/feed"

abbrev pub registry : MethodRegistry ℕ (StreamingMethodHandler ℕ)
registry = record { handlers = (feed_name, HandlerEntry.streaming feed) ∷ [] }

abbrev pub open_feed : StreamingOpenRequest
open_feed = record { method_name = feed_name; request_id = 1 }

abbrev open_nothing : StreamingOpenRequest
open_nothing = record { method_name = utf8 "t:e@1/i/none"; request_id = 1 }

abbrev pub requests_wire : List ℕ
requests_wire = 0x20 ∷ 2 ∷ 5 ∷ 6 ∷ 0x30 ∷ []

-- The pending bytes of a call, behind its opcode.
abbrev pub call_of : Text → List ℕ
call_of name = 14 ∷ 12 ∷ (name ++ (1 ∷ requests_wire))

pub ack_wire-IsFrameOf : IsFrameOf codecs (ack accepted 1) (0x11 ∷ 2 ∷ 0 ∷ 1 ∷ [])
unfolding groups
ack_wire-IsFrameOf = prefixed refl (omega arith)

handle_streaming_substream-registered_example :
    (t : Sent) × (handle_streaming_substream recv send leb128 show_read debug debug_frame codecs
        registry arrival 2
        (call_of feed_name)
        fresh_sent
        4
      ≡ some (t, 5))
    × (t.bytes ≡ [] ++ ((0x11 ∷ 2 ∷ 0 ∷ 1 ∷ []) ++ (response_wire ++ (0x31 ∷ []))))
    × (t.live ≡ false)
unfolding groups lookup_streaming
handle_streaming_substream-registered_example =
    handle_streaming_substream-registered recv_laws send_laws leb128_laws show_read debug
      debug_frame codecs_laws registry arrival open_feed (chunk ∷ []) feed 2 (call_of feed_name)
      fresh_sent 4 (0x11 ∷ 2 ∷ 0 ∷ 1 ∷ []) (response_wire ++ (0x31 ∷ [])) refl
      (12 ∷ (feed_name ++ (1 ∷ [])), requests_wire, refl, omega arith, requests_sent, refl)
      (omega arith) refl ack_wire-IsFrameOf responses_sent

abbrev refusal_wire : List ℕ
refusal_wire =
    let reason = utf8 "unknown streaming method: " ++ open_nothing.method_name in
    0x11 ∷ 41 ∷ 1 ∷ 38 ∷ (reason ++ (1 ∷ []))

refusal_wire-IsFrameOf :
    IsFrameOf codecs
      (ack (rejected (utf8 "unknown streaming method: " ++ open_nothing.method_name)) 1)
      refusal_wire
unfolding groups
refusal_wire-IsFrameOf = prefixed refl (omega arith)

handle_streaming_substream-unknown_example :
    ((t : Sent) × (handle_streaming_substream recv send leb128 show_read debug debug_frame codecs
          registry arrival 2
          (call_of open_nothing.method_name)
          fresh_sent
          4
        ≡ some (t, 4))
      × (t.bytes ≡ [] ++ refusal_wire)
      × (t.live ≡ false))
    × (check_ack
          (λ f. utf8 "frame")
          (some (ack (rejected (utf8 "unknown streaming method: " ++ open_nothing.method_name)) 1))
        ≡ err (RpcError.unknown_method open_nothing.method_name))
unfolding groups lookup_streaming nerw_rpc.Registry.lookup_entry nerw_rpc.Registry.resolve
    nerw_rpc.Method.parse
handle_streaming_substream-unknown_example =
    handle_streaming_substream-unknown recv_laws send_laws leb128_laws show_read debug debug_frame
      codecs_laws registry arrival open_nothing (chunk ∷ []) 2 (call_of open_nothing.method_name)
      fresh_sent 4 refusal_wire (λ f. utf8 "frame") refl
      (
        12 ∷ (open_nothing.method_name ++ (1 ∷ [])),
        requests_wire,
        refl,
        omega arith,
        requests_sent,
        refl,
      )
      refl refusal_wire-IsFrameOf
