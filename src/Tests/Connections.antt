-- ===== src/Tests/Connections.antt =====
-- Connections and their substreams at concrete inputs.
use nerw_rpc.Prelude.{ℕ, ◌+◌, ◌≤◌, List, [], ◌∷◌, ◌≡◌, ◌⊎◌, refl, arith, length}
use nerw_rpc.Result.{ok}
use nerw_rpc.Registry.{MethodRegistry}
use nerw_rpc.Context.{NodeId}
use nerw_rpc.Server.Dispatch.{MethodHandler}
use nerw_rpc.Server.Streaming.{StreamingMethodHandler}
use nerw_rpc.Server.Inbound.{handle_inbound_substream}
use nerw_rpc.Server.Accept.{RpcServer, new, wire_handler}
use nerw_rpc.Server.Connections.{
  Crates, Substream, Readings, Serving, start_serving, Work, acquire, Reached, here, next, handle,
  admit, accept_bi,
}
use nerw_rpc.Server.Connections.Bounds.{Reached-within_limits}
use nerw_rpc.Server.Connections.Progress.{remaining, Works, rest, then_step, Works-handled}
use nerw_rpc.StreamingCall.Total.{Handled, handle_inbound_substream-Handled}
use nerw_rpc.Tests.Instances.Leb128.{leb128}
use nerw_rpc.Tests.Instances.Quic.{recv, recv_laws, send, fresh_sent, Sent}
use nerw_rpc.Tests.Instances.Postcard.{wire_error}
use nerw_rpc.Tests.Instances.Shown.{arrival, show_utf8, show_read, debug, debug_frame}
use nerw_rpc.Tests.Instances.Codecs.{codecs}
use nerw_rpc.Tests.Unary.{registry, frame}

abbrev crates : Crates NodeId (List ℕ) Sent
crates = record {
  remote_id = λ q. q;
  recv = recv;
  send = send;
  leb128 = leb128;
  show_utf8 = show_utf8;
  show_read = show_read;
  debug_strings = debug;
  debug_frame = debug_frame;
  postcard = wire_error;
  codecs = codecs;
}

abbrev Handlers : Type 0
Handlers = MethodRegistry (MethodHandler ℕ) (StreamingMethodHandler ℕ)

abbrev server : RpcServer Unit Unit Handlers ℕ
server = new (record { inner = tt }) registry

abbrev now : Readings
now = record { now_ms = ok 1; elapsed_ns = 1; decode_us = 1; trace = []; span = [] }

abbrev World : Type 0
World = Serving NodeId (List ℕ) Sent ℕ

-- The substream of a call of `echo`, on the first connection.
abbrev calling : Substream NodeId (List ℕ) Sent
calling = record {
  connection = 9 ∷ [];
  connection_id = 1;
  stream_id = 0;
  recv = frame;
  send = fresh_sent;
}

-- Two connections were accepted, the first runs its loop, and one substream waits.
abbrev one_waits : World
one_waits = record {
  connection_id_counter = 3;
  blocked = (8 ∷ [], 2) ∷ [];
  looping = (9 ∷ [], 1) ∷ [];
  connection_permits = 1023;
  waiting = calling ∷ [];
  running = [];
  stream_permits = 256;
  handled = [];
  app = 4;
}

one_waits-Reached : Reached crates registry (start_serving (wire_handler server) 4) 2 1 one_waits
one_waits-Reached =
    next
      (next (next (next here (handle (9 ∷ []))) (admit [] [] (9 ∷ [], 1) 1023 refl refl))
        (handle (8 ∷ [])))
      (accept_bi [] [] (9 ∷ []) 1 0 frame fresh_sent refl)

Reached-within_limits_example : (1 ≤ 1024) × (0 ≤ 256) × (1 ≡ length one_waits.waiting + 0 + 0)
Reached-within_limits_example =
    Reached-within_limits crates server 4 2 1 one_waits one_waits-Reached

-- The task of the substream holds a permit.
abbrev one_runs : World
one_runs = record one_waits { waiting = []; running = calling ∷ []; stream_permits = 255 }

one_step : Works crates registry one_waits 1 one_runs
one_step = then_step rest (acquire [] [] calling 255 refl refl)

Works-handled_example :
    (1 + remaining one_runs ≡ remaining one_waits)
    × (((v : World) × Work crates registry one_runs v)
        ⊎ ((one_runs.waiting ≡ []) × (one_runs.running ≡ []) × (length one_runs.handled ≡ 1)))
Works-handled_example =
    Works-handled crates recv_laws now server 4 2 1 1 one_waits one_runs one_waits-Reached one_step
      (omega arith)

handle_inbound_substream-Handled_example :
    Handled recv_laws send leb128 show_utf8 show_read debug debug_frame wire_error codecs registry
      arrival
      (handle_inbound_substream recv send leb128 show_utf8 show_read debug debug_frame wire_error
        codecs registry arrival 4
        (0x10 ∷ 0xff ∷ 7 ∷ [])
        fresh_sent
        4)
handle_inbound_substream-Handled_example =
    handle_inbound_substream-Handled recv_laws send leb128 show_utf8 show_read debug debug_frame
      wire_error codecs registry arrival 4 (0x10 ∷ 0xff ∷ 7 ∷ []) fresh_sent 4 (omega arith)
