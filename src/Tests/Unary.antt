-- ===== src/Tests/Unary.antt =====
-- Unary calls at concrete inputs.
use nerw_rpc.Prelude.{ℕ, ◌+◌, List, [], ◌∷◌, ◌++◌, ◌≡◌, refl, none, some, arith, ◌⊎◌}
use nerw_rpc.Prelude.Text.{Text, utf8}
use nerw_rpc.Result.{ok, err}
use nerw_rpc.Error.{RpcError}
use nerw_rpc.Context.Inbound.{build_inbound_context}
use nerw_rpc.Registry.{MethodRegistry, HandlerEntry, lookup}
use nerw_rpc.External.Leb128.{groups}
use nerw_rpc.Server.Frame.{build_unary_request_frame}
use nerw_rpc.Server.Dispatch.{MethodHandler}
use nerw_rpc.Server.Streaming.{StreamingMethodHandler}
use nerw_rpc.Server.Inbound.{handle_inbound_substream}
use nerw_rpc.Unary.Response.{seen, Answered}
use nerw_rpc.Unary.EndToEnd.{handle_inbound_substream-unary}
use nerw_rpc.Tests.Instances.Leb128.{leb128, leb128_laws}
use nerw_rpc.Tests.Instances.Quic.{recv, recv_laws, send, send_laws, fresh_sent, Sent}
use nerw_rpc.Tests.Instances.Postcard.{wire_error, wire_error_laws, encodes}
use nerw_rpc.Tests.Instances.Shown.{arrival, show_utf8, show_read, debug, debug_frame}
use nerw_rpc.Tests.Instances.Codecs.{codecs}

abbrev pub echo_name : Text
echo_name = utf8 "t:e@1/i/echo"

-- The state counts the calls of the handler.
abbrev pub echo : MethodHandler ℕ
echo ctx payload calls = (ok payload, calls + 1)

abbrev pub registry : MethodRegistry (MethodHandler ℕ) (StreamingMethodHandler ℕ)
registry = record { handlers = (echo_name, HandlerEntry.unary echo) ∷ [] }

-- The frame of a call of `echo_name` with the request [7, 8].
abbrev pub frame : List ℕ
frame = 0 ∷ 12 ∷ (echo_name ++ (7 ∷ 8 ∷ []))

pub frame_built : build_unary_request_frame leb128 echo_name (7 ∷ 8 ∷ []) ≡ ok frame
unfolding build_unary_request_frame nerw_rpc.Wire.encode_method_name groups
frame_built = refl

handle_inbound_substream-unary_example :
    ((h : MethodHandler ℕ) × (lookup echo_name registry ≡ some h)
      × (let out = h (build_inbound_context arrival) (7 ∷ 8 ∷ []) 4 in
          (t : Sent) × (handle_inbound_substream recv send leb128 show_utf8 show_read debug
              debug_frame wire_error codecs registry arrival 0 frame fresh_sent 4
            ≡ some (t, out.1))
          × Answered send_laws debug wire_error_laws
              (seen send_laws debug wire_error_laws out.0)
              fresh_sent
              t))
    ⊎ ((lookup echo_name registry ≡ none)
        × ((t : Sent) × (handle_inbound_substream recv send leb128 show_utf8 show_read debug
                debug_frame wire_error codecs registry arrival 0 frame fresh_sent 4
              ≡ some (t, 4))
            × Answered send_laws debug wire_error_laws
                (err (RpcError.unknown_method echo_name))
                fresh_sent
                t))
unfolding nerw_rpc.Wire.Utf8.is_utf8
handle_inbound_substream-unary_example =
    handle_inbound_substream-unary recv_laws send_laws leb128_laws show_utf8 show_read debug
      debug_frame wire_error_laws encodes codecs registry arrival echo_name (7 ∷ 8 ∷ []) frame 0
      frame fresh_sent 4 refl (omega arith) frame_built (omega arith) refl refl
