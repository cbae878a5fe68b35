-- ===== src/Tests/Accept.antt =====
-- The server's life and its accept loop at concrete inputs.
use nerw_rpc.Prelude.{
  ℕ, suc, List, [], ◌∷◌, ◌≡◌, ◌⊎◌, refl, arith, map, Bool, true, false, none, some, ◌==◌,
  if◌then◌else◌,
}
use nerw_rpc.Prelude.Text.{utf8}
use nerw_rpc.Result.{ok, err}
use nerw_rpc.Error.{RpcError}
use nerw_rpc.Transport.{
  alpn_nerw_rpc_1_0_0, alpn_nerw_transit_1_0_0, nerw_rpc_alpns, IrohTransportClient,
}
use nerw_rpc.External.Executor.{Executor, ExecutorLaws}
use nerw_rpc.Server.{default_config}
use nerw_rpc.Server.Accept.{
  RpcServer, AlpnHandler, new, serve, drop, register_alpn_handler, registered_alpn_count,
  accept_loop_running, wire_handler, Incoming, WireDispatchHandler, Action, accept_connection,
}
use nerw_rpc.Server.Accept.History.{
  Call, registers, serves, State, run, latest, accept_connection-latest,
}
use nerw_rpc.Server.Accept.Lifecycle.{serve_once}

abbrev among : ℕ → List ℕ → Bool
among t [] = false
among t (u ∷ us) = if u == t then true else among t us

-- The next handle, the tasks that run, and those whose cancellation was asked for, which run on for
-- a while.
abbrev Tasks : Type 0
Tasks = ℕ × List ℕ × List ℕ

abbrev executor : Executor Tasks ℕ
executor = record {
  spawn = λ x. (x.0, (suc x.0, x.0 ∷ x.1, x.2));
  abort = λ t x. (x.0, x.1, t ∷ x.2);
}

among-cons : (t u : ℕ) (us : List ℕ) → among t (u ∷ us) ≡ true → (t ≡ u) ⊎ (among t us ≡ true)
among-cons t u us h = ground arith

among_first : (t : ℕ) (us : List ℕ) → among t (t ∷ us) ≡ true
among_first t us = ground arith

abbrev executor_laws : ExecutorLaws executor
executor_laws = record {
  running = λ t x. among t x.1;
  is_aborted = λ t x. among t x.2;
  spawn-running = λ x t h. among-cons t x.0 x.1 h;
  abort-is_aborted = λ t x. among_first t x.2;
  abort-running = λ t u x h. h;
}

abbrev transport : IrohTransportClient (Unit {0})
transport = record { inner = tt }

-- A handler is a number, and so is the registry.
abbrev server : RpcServer Unit ℕ ℕ ℕ
server = new transport 5

-- The latest first: a handler for transit, a second `serve`, the first, a handler for calls.
abbrev calls : List (Call ℕ)
calls = registers alpn_nerw_transit_1_0_0 8 ∷ serves ∷ serves ∷ registers alpn_nerw_rpc_1_0_0 7 ∷ []

abbrev served : State Unit ℕ ℕ ℕ Tasks
served = run executor calls server (0, [], [])

-- The second call fails and changes nothing, and the first replaced the handler for calls.
served_result :
    (served.replies ≡ err RpcError.already_serving ∷ ok tt ∷ [])
    × (registered_alpn_count served.server ≡ 2)
    × (accept_loop_running served.server ≡ true)
    × (served.tasks ≡ (1, 0 ∷ [], []))
    × (drop executor served.server served.tasks ≡ (1, 0 ∷ [], 0 ∷ []))
unfolding serve register_alpn_handler drop
served_result = (refl, refl, refl, refl, refl)

abbrev arriving : List ℕ → Incoming ℕ
arriving alpn = record { accept = ok tt; alpn = ok alpn; connection = ok 3 }

abbrev lost : Incoming ℕ
lost = record { accept = ok tt; alpn = err (utf8 "timed out"); connection = ok 3 }

accepted :
    (accept_connection served.server.alpn_handlers (arriving alpn_nerw_rpc_1_0_0)
      ≡ ok (Action.handle (AlpnHandler.wire (wire_handler server)) 3))
    × (accept_connection served.server.alpn_handlers (arriving (utf8 "other"))
        ≡ ok (Action.close 1 (utf8 "no-handler-registered") 3))
    × (accept_connection served.server.alpn_handlers lost ≡ err (utf8 "timed out"))
unfolding serve register_alpn_handler accept_connection
accepted = (refl, refl, refl)

accept_connection-latest_example :
    let built_in : WireDispatchHandler ℕ = record {
      registry = 5;
      stream_permits = 256;
      connection_permits = 1024;
      connection_id_counter = 1;
    } in
    let bound = latest (AlpnHandler.wire built_in) alpn_nerw_rpc_1_0_0 calls in
    let action = accept_connection served.server.alpn_handlers (arriving alpn_nerw_rpc_1_0_0) in
    ((h : AlpnHandler ℕ ℕ) × (bound ≡ some h) × (action ≡ ok (Action.handle h 3)))
    ⊎ ((bound ≡ none) × (action ≡ ok (Action.close 1 (utf8 "no-handler-registered") 3)))
accept_connection-latest_example =
    accept_connection-latest executor transport 5 default_config (0, [], []) calls
      (arriving alpn_nerw_rpc_1_0_0) alpn_nerw_rpc_1_0_0 3 refl refl refl

serve_once_example :
    (served.replies ≡ err RpcError.already_serving ∷ ok tt ∷ [])
    × (accept_loop_running served.server ≡ true)
    × ((t : ℕ) → among t served.tasks.1 ≡ true → served.server.accept_loop ≡ some t)
    × ((t : ℕ)
        → among t (drop executor served.server served.tasks).1 ≡ true
        → among t (drop executor served.server served.tasks).2 ≡ true)
serve_once_example =
    serve_once executor_laws transport 5 default_config (0, [], []) calls (λ t. refl)

-- Each of the protocols that an endpoint declares has a handler of its own.
four_alpns :
    registered_alpn_count
      (run executor (map (λ alpn. registers alpn 1) nerw_rpc_alpns) server (0, [], [])).server
    ≡ 4
unfolding register_alpn_handler
four_alpns = refl
