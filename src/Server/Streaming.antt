-- ===== src/Server/Streaming.antt =====
-- src/server.rs and src/streaming.rs: a streaming call on the server.
use nerw_rpc.Prelude.{ℕ, List, [], ◌++◌, Option, none, some, if◌then◌else◌}
use nerw_rpc.Prelude.Text.{Text, utf8}
use nerw_rpc.Result.{Result, ok, err}
use nerw_rpc.Error.{RpcResult}
use nerw_rpc.Wire.{opcode_streaming_open_request}
use nerw_rpc.Registry.{MethodRegistry, lookup_streaming}
use nerw_rpc.Context.{RpcContext}
use nerw_rpc.Context.Inbound.{Arrival, build_inbound_context}
use nerw_rpc.External.Leb128.{Leb128}
use nerw_rpc.External.Quic.{RecvStream, SendStream, ReadExactError}
use nerw_rpc.External.Channel.{collect}
use nerw_rpc.Streaming.{StreamingFrame, StreamingOpenStatus, Codecs, accepted, rejected}
use nerw_rpc.Streaming.Read.{read_streaming_frame_after_opcode}
use nerw_rpc.Streaming.Write.{write_open_response}
use nerw_rpc.Server.Pump.{pump_inbound_requests, drain_handler_responses, finalise_streaming}

-- What a handler sent before it dropped its sender, and how its task ended.
pub record HandlerRun : Type 0 where
  pub responses : List (RpcResult (List ℕ))
  pub outcome : Result Text (RpcResult (Unit {0}))

-- `StreamingMethodHandler`: a handler is given the items of its request stream. It reads and
-- changes the application's state `W`.
abbrev pub StreamingMethodHandler : Type 0 → Type 0
StreamingMethodHandler W = RpcContext → List (RpcResult (List ℕ)) → W → HandlerRun × W

module _ {R S W U : Type 0} (recv : RecvStream R) (send : SendStream S) (l : Leb128)
    (show_read : ReadExactError → Text) (debug_strings : List Text → Text)
    (debug_frame : StreamingFrame → Text) (codecs : Codecs)
    (registry : MethodRegistry U (StreamingMethodHandler W)) (a : Arrival) where
  abbrev pub Negotiated : Type 0
  Negotiated = Option (StreamingMethodHandler W × RpcContext) × S

  -- The acknowledgement of an open request.
  abbrev pub write_ack : StreamingOpenStatus → ℕ → S → RpcResult (Unit {0}) × S
  write_ack st id = write_open_response send l codecs (record { status = st; request_id = id })

  -- The substream is finished behind a refusal that was written.
  abbrev pub refused : RpcResult (Unit {0}) × S → Negotiated
  refused (ok _, s) = (none, (send.finish s).1)
  refused (err e, s) = (none, s)

  abbrev pub opened : StreamingMethodHandler W → RpcResult (Unit {0}) × S → Negotiated
  opened handler (ok _, s) = (some (handler, build_inbound_context a), s)
  opened handler (err e, s) = (none, s)

  abbrev pub acknowledge : Option (StreamingMethodHandler W) → Text → ℕ → S → Negotiated
  acknowledge none method_name request_id s =
      refused (write_ack (rejected (utf8 "unknown streaming method: " ++ method_name)) request_id s)
  acknowledge (some handler) method_name request_id s =
      opened handler (write_ack accepted request_id s)

  abbrev pub on_open : RpcResult StreamingFrame → S → Negotiated
  on_open (ok (StreamingFrame.open_request body)) s =
      acknowledge (lookup_streaming body.method_name registry) body.method_name body.request_id s
  on_open (ok other) s = (none, s)
  on_open (err e) s = (none, s)

  unfoldable pub streaming_negotiate_open : S → R → Negotiated × R
  streaming_negotiate_open s r =
      let read =
        read_streaming_frame_after_opcode recv show_read codecs opcode_streaming_open_request r in
      (on_open read.0 s, read.1)

  -- The frames that follow the handler's run, and the end of the sending half.
  abbrev pub respond : HandlerRun → S → S
  respond run s =
      let drained = drain_handler_responses send l codecs debug_strings run.responses s in
      let closed = finalise_streaming send l codecs debug_strings run.outcome drained.1 in
      (send.finish (if drained.0 then drained.1 else closed)).1

  abbrev pub run_handler :
      StreamingMethodHandler W × RpcContext
      → S
      → W
      → Option (R × List (RpcResult (List ℕ)))
      → Option (S × W)
  run_handler h s w none = none
  run_handler (handler, ctx) s w (some (r, items)) =
      let run = handler ctx items w in some (respond run.0 s, run.1)

  abbrev pub after_negotiation : ℕ → Negotiated × R → W → Option (S × W)
  after_negotiation fuel ((none, s), r) w = some (s, w)
  after_negotiation fuel ((some h, s), r) w =
      run_handler h s w (pump_inbound_requests recv show_read codecs debug_frame collect fuel r [])

  -- `fuel` bounds the number of request frames; `none` if it does not suffice. The handler is given
  -- the whole sequence of its requests: what it sends depends on nothing else that it can observe.
  unfoldable pub handle_streaming_substream : ℕ → R → S → W → Option (S × W)
  handle_streaming_substream fuel r s w = after_negotiation fuel (streaming_negotiate_open s r) w
