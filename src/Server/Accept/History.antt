-- ===== src/Server/Accept/History.antt =====
-- src/server.rs: the server over a whole history of calls of its methods.
use nerw_rpc.Prelude.{
  ℕ, zero, suc, List, [], ◌∷◌, ◌++◌, ◌≡◌, refl, Option, none, some, Bool, true, false,
  if◌then◌else◌, arith, replicate, ◌⊎◌, inl, inr, Option-cases,
}
use nerw_rpc.Prelude.Text.{text_eq, utf8}
use nerw_rpc.Result.{ok, err}
use nerw_rpc.Error.{RpcError, RpcResult}
use nerw_rpc.Transport.{alpn_nerw_rpc_1_0_0, IrohTransportClient}
use nerw_rpc.Registry.{get, is_some}
use nerw_rpc.Registry.Entries.{get-insert}
use nerw_rpc.External.Executor.{Executor}
use nerw_rpc.Server.{RpcServerConfig}
use nerw_rpc.Server.Accept.{
  RpcServer, AlpnHandler, with_config, Incoming, WireDispatchHandler, Action, by_handler,
  accept_connection, wire_handler, register_alpn_handler, serve, serve_slot,
}

-- A call of a method of the server.
pub data Call (A : Type 0) : Type 0 where
  registers : List ℕ → A → Call A
  serves : Call A

-- The answers of that many calls of `serve`, the latest first: the first succeeds, and no other.
abbrev pub answers : ℕ → List (RpcResult (Unit {0}))
answers zero = []
answers (suc n) = replicate n (err RpcError.already_serving) ++ (ok tt ∷ [])

-- A history is the list of the calls, the latest first.
module _ {A : Type 0} where
  abbrev pub is_serve : Call A → Bool
  is_serve serves = true
  is_serve (registers _ _) = false

  -- How often `serve` was called.
  abbrev pub serve_count : List (Call A) → ℕ
  serve_count [] = 0
  serve_count (registers _ _ ∷ earlier) = serve_count earlier
  serve_count (serves ∷ earlier) = suc (serve_count earlier)

  module _ {G : Type 0} (built_in : AlpnHandler A G) (alpn : List ℕ) where
    -- What the call binds to `alpn`, after the calls before it. Of the calls of `serve`, the first
    -- binds the protocol of calls to the built-in handler, and the others bind nothing.
    abbrev pub binds : ℕ → Call A → Option (AlpnHandler A G)
    binds n (registers name handler) =
        if text_eq name alpn then some (AlpnHandler.custom handler) else none
    binds zero serves = if text_eq alpn_nerw_rpc_1_0_0 alpn then some built_in else none
    binds (suc n) serves = none

    abbrev pub or_earlier :
        Option (AlpnHandler A G) → Option (AlpnHandler A G) → Option (AlpnHandler A G)
    or_earlier (some h) earlier = some h
    or_earlier none earlier = earlier

    if-or_earlier :
        (b : Bool) (h : AlpnHandler A G) (earlier : Option (AlpnHandler A G))
        → (if b then some h else earlier) ≡ or_earlier (if b then some h else none) earlier
    if-or_earlier true h earlier = refl
    if-or_earlier false h earlier = refl

    -- The handler that the latest binding call bound.
    abbrev pub latest : List (Call A) → Option (AlpnHandler A G)
    latest [] = none
    latest (call ∷ earlier) = or_earlier (binds (serve_count earlier) call) (latest earlier)

abbrev pub is_positive : ℕ → Bool
is_positive zero = false
is_positive (suc n) = true

-- The answers of `serve` so far, the latest first, the server and the tasks.
pub record State (C A G T X : Type 0) : Type 0 where
  pub replies : List (RpcResult (Unit {0}))
  pub server : RpcServer C A G T
  pub tasks : X

module _ {C A G T X : Type 0} (e : Executor X T) where
  abbrev pub after_serve :
      List (RpcResult (Unit {0})) → RpcResult (Unit {0}) × RpcServer C A G T × X → State C A G T X
  after_serve replies (reply, server, x) = record {
    replies = reply ∷ replies;
    server = server;
    tasks = x;
  }

  abbrev pub after : Call A → State C A G T X → State C A G T X
  after (registers alpn handler) s = record s {
    server = register_alpn_handler alpn handler s.server;
  }
  after serves s = after_serve s.replies (serve e s.server s.tasks)

  abbrev pub run : List (Call A) → RpcServer C A G T → X → State C A G T X
  run [] server x = record { replies = []; server = server; tasks = x }
  run (call ∷ earlier) server x = after call (run earlier server x)

  -- What a history leaves of a server that serves nothing and has no handlers.
  pub record Left (server : RpcServer C A G T) (calls : List (Call A)) (s : State C A G T X)
      : Type 0 where
    pub replies : s.replies ≡ answers (serve_count calls)
    pub wire : wire_handler s.server ≡ wire_handler server
    pub serving : is_some s.server.accept_loop ≡ is_positive (serve_count calls)
    pub table :
        (alpn : List ℕ)
        → get alpn s.server.alpn_handlers
          ≡ latest (AlpnHandler.wire (wire_handler server)) alpn calls

  -- The case of `serve`, by what the slot of the accept loop holds.
  serve_slot-Left :
      (server : RpcServer C A G T) (calls : List (Call A)) (s : State C A G T X) (n : ℕ)
      (slot : Option T)
      → serve_count calls ≡ n
      → s.server.accept_loop ≡ slot
      → Left server calls s
      → Left server (serves ∷ calls) (after_serve s.replies (serve_slot e slot s.server s.tasks))
  serve_slot-Left server calls s zero (some t) count held left =
      absurd (ground (arith, left.serving))
  serve_slot-Left server calls s (suc n) (some t) count held left = record {
    replies = ground (arith, left.replies);
    wire = left.wire;
    serving = rw held refl;
    table = λ alpn. rw count (left.table alpn);
  }
  serve_slot-Left server calls s (suc n) none count held left =
      absurd (ground (arith, left.serving))
  serve_slot-Left server calls s zero none count held left = record {
    replies = ground (arith, left.replies);
    wire = left.wire;
    serving = refl;
    table = λ alpn.
        rw
          (
            get-insert alpn_nerw_rpc_1_0_0 alpn (AlpnHandler.wire (wire_handler s.server))
                s.server.alpn_handlers,
            left.wire,
            left.table alpn,
            count,
          )
          (if-or_earlier (AlpnHandler.wire (wire_handler server)) alpn
            (text_eq alpn_nerw_rpc_1_0_0 alpn) _ _);
  }

  after-Left :
      (server : RpcServer C A G T) (call : Call A) (calls : List (Call A)) (s : State C A G T X)
      → Left server calls s
      → Left server (call ∷ calls) (after call s)
  unfolding register_alpn_handler serve
  after-Left server (registers name handler) calls s left = record {
    replies = left.replies;
    wire = left.wire;
    serving = left.serving;
    table = λ alpn.
        rw (get-insert name alpn (AlpnHandler.custom handler) s.server.alpn_handlers)
          (ground (arith, left.table alpn));
  }
  after-Left server serves calls s left =
      serve_slot-Left server calls s (serve_count calls) s.server.accept_loop refl refl left

  pub run-Left :
      (transport : IrohTransportClient C) (registry : G) (config : RpcServerConfig) (x : X)
      (calls : List (Call A))
      → let server : RpcServer C A G T = with_config transport registry config in
        Left server calls (run calls server x)
  run-Left transport registry config x [] = record {
    replies = refl;
    wire = refl;
    serving = refl;
    table = λ alpn. refl;
  }
  run-Left transport registry config x (call ∷ calls) =
      after-Left _ call calls _ (run-Left transport registry config x calls)

  accept_connection-by_handler :
      {Q : Type 0} (transport : IrohTransportClient C) (registry : G) (config : RpcServerConfig)
      (x : X) (calls : List (Call A)) (incoming : Incoming Q) (alpn : List ℕ) (conn : Q)
      → incoming.accept ≡ ok tt
      → incoming.alpn ≡ ok alpn
      → incoming.connection ≡ ok conn
      → let server : RpcServer C A G T = with_config transport registry config in
        accept_connection (run calls server x).server.alpn_handlers incoming
        ≡ ok (by_handler (latest (AlpnHandler.wire (wire_handler server)) alpn calls) conn)
  unfolding accept_connection
  accept_connection-by_handler transport registry config x calls incoming alpn conn a n c =
      rw (a, n, c, (run-Left transport registry config x calls).table alpn) refl

  -- Whatever handlers were registered and however often `serve` was called, in any order, a
  -- connection whose acceptance, protocol name and handshake succeed runs the handler that the
  -- latest call bound to its protocol. For the protocol of calls the first call of `serve` binds the
  -- built-in handler, with the limits of the configuration and 1 as the next connection id; the
  -- later calls of `serve` bind nothing. If no call bound the protocol, the connection is closed
  -- with code 1 and the reason `no-handler-registered`.
  pub accept_connection-latest :
      {Q : Type 0} (transport : IrohTransportClient C) (registry : G) (config : RpcServerConfig)
      (x : X) (calls : List (Call A)) (incoming : Incoming Q) (alpn : List ℕ) (conn : Q)
      → incoming.accept ≡ ok tt
      → incoming.alpn ≡ ok alpn
      → incoming.connection ≡ ok conn
      → let server : RpcServer C A G T = with_config transport registry config in
        let built_in : WireDispatchHandler G = record {
          registry = registry;
          stream_permits = config.max_concurrent_streams;
          connection_permits = config.max_concurrent_connections;
          connection_id_counter = 1;
        } in
        let bound = latest (AlpnHandler.wire built_in) alpn calls in
        let action = accept_connection (run calls server x).server.alpn_handlers incoming in
        ((h : AlpnHandler A G) × (bound ≡ some h) × (action ≡ ok (Action.handle h conn)))
        ⊎ ((bound ≡ none) × (action ≡ ok (Action.close 1 (utf8 "no-handler-registered") conn)))
  accept_connection-latest transport registry config x calls incoming alpn conn a n c =
      let server : RpcServer C A G T = with_config transport registry config in
      let done =
        accept_connection-by_handler transport registry config x calls incoming alpn conn a n c in
      elim (Option-cases (latest (AlpnHandler.wire (wire_handler server)) alpn calls)) [
        | inr (h, bound) ↦ inl (h, bound, rw bound at done)
        | inl unbound ↦ inr (unbound, rw unbound at done)
      ]
