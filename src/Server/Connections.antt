-- ===== src/Server/Connections.antt =====
-- src/server.rs: the connections of the built-in protocol handler and their substreams, with the
-- two semaphores, as a step relation.
pub mod Bounds
pub mod Progress
use nerw_rpc.Prelude.{ℕ, suc, ◌+◌, ◌%◌, ◌^◌, List, [], ◌∷◌, ◌++◌, ◌≡◌, Option, some}
use nerw_rpc.Prelude.Text.{Text}
use nerw_rpc.Result.{Result}
use nerw_rpc.WireError.{WireError}
use nerw_rpc.Registry.{MethodRegistry}
use nerw_rpc.Context.{NodeId, Uuid}
use nerw_rpc.Context.Inbound.{Arrival}
use nerw_rpc.External.Leb128.{Leb128}
use nerw_rpc.External.Quic.{RecvStream, SendStream, ReadExactError}
use nerw_rpc.External.Postcard.{Postcard}
use nerw_rpc.Streaming.{StreamingFrame, Codecs}
use nerw_rpc.Server.Dispatch.{MethodHandler}
use nerw_rpc.Server.Streaming.{StreamingMethodHandler}
use nerw_rpc.Server.Inbound.{handle_inbound_substream}
use nerw_rpc.Server.Accept.{WireDispatchHandler}

-- The crates that the handling of a substream calls, for connections of type `Q`.
pub record Crates (Q R S : Type 0) : Type 0 where
  pub remote_id : Q → NodeId
  pub recv : RecvStream R
  pub send : SendStream S
  pub leb128 : Leb128
  pub show_utf8 : Text → Text
  pub show_read : ReadExactError → Text
  pub debug_strings : List Text → Text
  pub debug_frame : StreamingFrame → Text
  pub postcard : Postcard WireError
  pub codecs : Codecs

-- A substream that was accepted: its connection with the id that the server gave it, the id of the
-- stream, and the two halves.
pub record Substream (Q R S : Type 0) : Type 0 where
  pub connection : Q
  pub connection_id : ℕ
  pub stream_id : ℕ
  pub recv : R
  pub send : S

-- The clocks and the random generator while a substream is handled.
pub record Readings : Type 0 where
  pub now_ms : Result Text ℕ
  pub elapsed_ns : ℕ
  pub decode_us : ℕ
  pub trace : Uuid
  pub span : Uuid

-- The connections that wait for a permit and those in their accept loop, with their ids; the
-- substreams that wait for a permit, those that hold one, and those that were handled, each with the
-- state in which it left its sending half; the counter, the free permits and the application.
pub record Serving (Q R S W : Type 0) : Type 0 where
  pub connection_id_counter : ℕ
  pub blocked : List (Q × ℕ)
  pub looping : List (Q × ℕ)
  pub connection_permits : ℕ
  pub waiting : List (Substream Q R S)
  pub running : List (Substream Q R S)
  pub stream_permits : ℕ
  pub handled : List (Substream Q R S × S)
  pub app : W

-- What the context of a request is built from.
abbrev pub arrival : {Q R S : Type 0} → (Q → NodeId) → Substream Q R S → Readings → Arrival
arrival remote_id s now = record {
  remote_id = remote_id s.connection;
  connection_id = s.connection_id;
  stream_id = s.stream_id;
  now_ms = now.now_ms;
  elapsed_ns = now.elapsed_ns;
  decode_us = now.decode_us;
  trace = now.trace;
  span = now.span;
}

-- Nothing was accepted yet, and all permits are free.
abbrev pub start_serving : {Q R S W G : Type 0} → WireDispatchHandler G → W → Serving Q R S W
start_serving h app = record {
  connection_id_counter = h.connection_id_counter;
  blocked = [];
  looping = [];
  connection_permits = h.connection_permits;
  waiting = [];
  running = [];
  stream_permits = h.stream_permits;
  handled = [];
  app = app;
}

module _ {Q R S W : Type 0} (c : Crates Q R S)
    (registry : MethodRegistry (MethodHandler W) (StreamingMethodHandler W)) where
  unfoldable pub handle_substream : Substream Q R S → Readings → ℕ → W → Option (S × W)
  handle_substream s now fuel app =
      handle_inbound_substream c.recv c.send c.leb128 c.show_utf8 c.show_read c.debug_strings
        c.debug_frame c.postcard c.codecs registry (arrival c.remote_id s now) fuel s.recv s.send
        app

  -- The task of a substream: it waits for a permit, in any order; then it handles the substream,
  -- which is one step, and its permit is returned.
  pub data Work (t : Serving Q R S W) : Serving Q R S W → Type 0 where
    acquire :
        (before after : List (Substream Q R S)) (s : Substream Q R S) (k : ℕ)
        → t.waiting ≡ before ++ (s ∷ after)
        → t.stream_permits ≡ suc k
        → Work t
            (record t { waiting = before ++ after; running = s ∷ t.running; stream_permits = k })
    complete :
        (before after : List (Substream Q R S)) (s : Substream Q R S) (now : Readings) (fuel : ℕ)
        (send : S) (app : W)
        → t.running ≡ before ++ (s ∷ after)
        → handle_substream s now fuel t.app ≡ some (send, app)
        → Work t (record t {
          running = before ++ after;
          stream_permits = suc t.stream_permits;
          handled = (s, send) ∷ t.handled;
          app = app;
        })

  -- `handle` and `run_connection_loop`, with the numbers of connections and of substreams that a
  -- step accepts: a connection gets the next id, which wraps; it waits for a permit, in any order;
  -- while its loop runs, a task is spawned for each substream that it accepts; when its loop ends,
  -- its permit is returned and its substreams stay.
  pub data Step (t : Serving Q R S W) : ℕ → ℕ → Serving Q R S W → Type 0 where
    handle :
        (connection : Q)
        → Step t 1 0 (record t {
          connection_id_counter = (t.connection_id_counter + 1) % 2 ^ 64;
          blocked = (connection, t.connection_id_counter) ∷ t.blocked;
        })
    admit :
        (before after : List (Q × ℕ)) (q : Q × ℕ) (k : ℕ)
        → t.blocked ≡ before ++ (q ∷ after)
        → t.connection_permits ≡ suc k
        → Step t 0 0 (record t {
          blocked = before ++ after;
          looping = q ∷ t.looping;
          connection_permits = k;
        })
    accept_bi :
        (before after : List (Q × ℕ)) (q : Q) (id stream_id : ℕ) (recv : R) (send : S)
        → t.looping ≡ before ++ ((q, id) ∷ after)
        → Step t 0 1 (record t {
          waiting =
              record {
                connection = q;
                connection_id = id;
                stream_id = stream_id;
                recv = recv;
                send = send;
              }
              ∷ t.waiting;
        })
    terminate :
        (before after : List (Q × ℕ)) (q : Q × ℕ)
        → t.looping ≡ before ++ (q ∷ after)
        → Step t 0 0
            (record t { looping = before ++ after; connection_permits = suc t.connection_permits })
    work : {u : Serving Q R S W} → Work t u → Step t 0 0 u

  -- The states that are reached, with the numbers of connections and of substreams accepted so far.
  pub data Reached (start : Serving Q R S W) : ℕ → ℕ → Serving Q R S W → Type 0 where
    here : Reached start 0 0 start
    next :
        {m n i j : ℕ} {t u : Serving Q R S W}
        → Reached start m n t
        → Step t i j u
        → Reached start (m + i) (n + j) u
