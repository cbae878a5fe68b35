-- ===== src/Server/Tasks.antt =====
-- src/server.rs: the tasks of a streaming call on the server, over their two bounded channels, as a
-- step relation.
pub mod Sequential
pub mod Ending
use nerw_rpc.Prelude.{
  ℕ, suc, ◌<◌, List, [], ◌∷◌, ◌++◌, ◌≡◌, Option, none, some, Bool, true, false, length,
}
use nerw_rpc.Prelude.Text.{Text}
use nerw_rpc.Result.{Result, ok, err}
use nerw_rpc.Error.{RpcResult}
use nerw_rpc.External.Leb128.{Leb128}
use nerw_rpc.External.Quic.{SendStream}
use nerw_rpc.Streaming.{Codecs, handler_err_to_terminal}
use nerw_rpc.Streaming.Write.{write_response_chunk}
use nerw_rpc.Server.Pump.{write_terminal, finalise_streaming}
use nerw_rpc.Server.Streaming.{HandlerRun}

-- The capacity of both channels.
abbrev pub channel_capacity : ℕ
channel_capacity = 16

abbrev pub Item : Type 0
Item = RpcResult (List ℕ)

-- What a handler still does. It receives the next request, or `none` once there is none; it sends
-- a response, and learns whether the receiver was there; it reads and changes the application's
-- state; and its task ends.
pub data Program (W : Type 0) : Type 0 where
  receive : (Option Item → Program W) → Program W
  send : Item → (Bool → Program W) → Program W
  update : (W → W) → (W → Program W) → Program W
  ended : Result Text (RpcResult (Unit {0})) → Program W

-- `drain_handler_responses` with the state of the sending half: it still takes responses, or it
-- has stopped behind a terminal error or a failed write.
pub data Drain (S : Type 0) : Type 0 where
  draining : S → Drain S
  stopped : S → Drain S

-- What the request pump will still forward, the two channels, and the three parties.
pub record Call (S W : Type 0) : Type 0 where
  pub to_pump : List Item
  pub requests : List Item
  pub handler : Program W
  pub responses : List Item
  pub drain : Drain S
  pub app : W

-- The channels are empty when the tasks are spawned.
abbrev pub spawned : {S W : Type 0} → List Item → Program W → S → W → Call S W
spawned items handler s app = record {
  to_pump = items;
  requests = [];
  handler = handler;
  responses = [];
  drain = draining s;
  app = app;
}

module _ {S : Type 0} (stream : SendStream S) (l : Leb128) (codecs : Codecs)
    (debug_strings : List Text → Text) where
  abbrev pub after_write : RpcResult (Unit {0}) × S → Drain S
  after_write (ok _, s) = draining s
  after_write (err _, s) = stopped s

  -- One turn of `drain_handler_responses`.
  abbrev pub drain_item : Item → S → Drain S
  drain_item (ok chunk) s = after_write (write_response_chunk stream l chunk s)
  drain_item (err e) s =
      stopped
        (write_terminal stream l codecs debug_strings (handler_err_to_terminal debug_strings e) s)

  -- The final close frame, if none was written, and the end of the sending half.
  abbrev pub close_call : Drain S → Result Text (RpcResult (Unit {0})) → S
  close_call (draining s) outcome =
      (stream.finish (finalise_streaming stream l codecs debug_strings outcome s)).1
  close_call (stopped s) outcome = (stream.finish s).1

  -- The pump forwards an item while the channel has room; the handler receives, and finds the end
  -- once the channel is empty and the pump is done; a response waits for room, and fails once the
  -- drain has stopped; the drain takes a response.
  pub data Step {W : Type 0} (t : Call S W) : Call S W → Type 0 where
    forward :
        (x : Item) (rest : List Item)
        → t.to_pump ≡ x ∷ rest
        → length t.requests < channel_capacity
        → Step t (record t { to_pump = rest; requests = t.requests ++ (x ∷ []) })
    take_request :
        (k : Option Item → Program W) (x : Item) (rest : List Item)
        → t.handler ≡ receive k
        → t.requests ≡ x ∷ rest
        → Step t (record t { requests = rest; handler = k (some x) })
    end_requests :
        (k : Option Item → Program W)
        → t.handler ≡ receive k
        → t.requests ≡ []
        → t.to_pump ≡ []
        → Step t (record t { handler = k none })
    send_response :
        (x : Item) (k : Bool → Program W) (s : S)
        → t.handler ≡ send x k
        → t.drain ≡ draining s
        → length t.responses < channel_capacity
        → Step t (record t { handler = k true; responses = t.responses ++ (x ∷ []) })
    send_dropped :
        (x : Item) (k : Bool → Program W) (s : S)
        → t.handler ≡ send x k
        → t.drain ≡ stopped s
        → Step t (record t { handler = k false })
    run_update :
        (f : W → W) (k : W → Program W)
        → t.handler ≡ update f k
        → Step t (record t { handler = k t.app; app = f t.app })
    drain_response :
        (x : Item) (rest : List Item) (s : S)
        → t.drain ≡ draining s
        → t.responses ≡ x ∷ rest
        → Step t (record t { responses = rest; drain = drain_item x s })

  -- The states that the tasks reach.
  pub data Reached {W : Type 0} (start : Call S W) : Call S W → Type 0 where
    here : Reached start start
    next : {t u : Call S W} → Reached start t → Step t u → Reached start u

-- The task of the handler has ended, and the drain has stopped or has nothing left to take.
pub data IsOver {S W : Type 0} (t : Call S W) : Result Text (RpcResult (Unit {0})) → Type 0 where
  drained :
      (outcome : Result Text (RpcResult (Unit {0}))) (s : S)
      → t.handler ≡ ended outcome
      → t.drain ≡ draining s
      → t.responses ≡ []
      → IsOver t outcome
  cut :
      (outcome : Result Text (RpcResult (Unit {0}))) (s : S)
      → t.handler ≡ ended outcome
      → t.drain ≡ stopped s
      → IsOver t outcome
