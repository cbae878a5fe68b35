-- ===== src/Server/Accept.antt =====
-- src/server.rs: the server's life, its table of protocol handlers, and the accept loop.
pub mod History
pub mod Lifecycle
use nerw_rpc.Prelude.{ℕ, List, [], ◌∷◌, ◌++◌, Option, none, some, Bool, length}
use nerw_rpc.Prelude.Text.{Text, utf8}
use nerw_rpc.Result.{Result, ok, err, ◌>>=◌}
use nerw_rpc.Error.{RpcError, RpcResult}
use nerw_rpc.Transport.{alpn_nerw_rpc_1_0_0, IrohTransportClient}
use nerw_rpc.Registry.{get, insert, is_some}
use nerw_rpc.External.Executor.{Executor}
use nerw_rpc.Server.{RpcServerConfig, default_config, close_no_handler}

-- The built-in handler as `serve` makes it: the registry `G`, the permits of its semaphores, and
-- the next connection id.
pub record WireDispatchHandler (G : Type 0) : Type 0 where
  pub registry : G
  pub stream_permits : ℕ
  pub connection_permits : ℕ
  pub connection_id_counter : ℕ

-- `Arc<dyn AlpnHandler>`: the built-in handler, or one of the application's, of type `A`.
pub data AlpnHandler (A G : Type 0) : Type 0 where
  wire : WireDispatchHandler G → AlpnHandler A G
  custom : A → AlpnHandler A G

-- `DashMap<Vec<u8>, Arc<dyn AlpnHandler>>`, as the list of its entries.
abbrev pub AlpnHandlerTable : Type 0 → Type 0 → Type 0
AlpnHandlerTable A G = List (List ℕ × AlpnHandler A G)

-- The types of the transport, of the application's handlers, of the registry and of task handles.
pub record RpcServer (C A G T : Type 0) : Type 0 where
  pub transport : IrohTransportClient C
  pub registry : G
  pub config : RpcServerConfig
  pub alpn_handlers : AlpnHandlerTable A G
  pub accept_loop : Option T

abbrev abort_slot : {T X : Type 0} → Executor X T → Option T → X → X
abort_slot tasks none x = x
abort_slot tasks (some handle) x = tasks.abort handle x

module _ {C A G T : Type 0} where
  abbrev pub with_config : IrohTransportClient C → G → RpcServerConfig → RpcServer C A G T
  with_config transport registry config = record {
    transport = transport;
    registry = registry;
    config = config;
    alpn_handlers = [];
    accept_loop = none;
  }

  abbrev pub new : IrohTransportClient C → G → RpcServer C A G T
  new transport registry = with_config transport registry default_config

  abbrev pub registered_alpn_count : RpcServer C A G T → ℕ
  registered_alpn_count server = length server.alpn_handlers

  -- The field `accept_loop_running` of `Debug`.
  abbrev pub accept_loop_running : RpcServer C A G T → Bool
  accept_loop_running server = is_some server.accept_loop

  unfoldable pub register_alpn_handler : List ℕ → A → RpcServer C A G T → RpcServer C A G T
  register_alpn_handler alpn handler server = record server {
    alpn_handlers = insert alpn (AlpnHandler.custom handler) server.alpn_handlers;
  }

  abbrev pub wire_handler : RpcServer C A G T → WireDispatchHandler G
  wire_handler server = record {
    registry = server.registry;
    stream_permits = server.config.max_concurrent_streams;
    connection_permits = server.config.max_concurrent_connections;
    connection_id_counter = 1;
  }

  module _ {X : Type 0} (tasks : Executor X T) where
    -- `serve` once the slot of the accept loop is locked and read.
    abbrev pub serve_slot :
        Option T → RpcServer C A G T → X → RpcResult (Unit {0}) × RpcServer C A G T × X
    serve_slot (some handle) server x = (err RpcError.already_serving, server, x)
    serve_slot none server x =
        let (handle, y) = tasks.spawn x in
        (
          ok tt,
          record server {
            alpn_handlers =
                insert alpn_nerw_rpc_1_0_0 (AlpnHandler.wire (wire_handler server))
                  server.alpn_handlers;
            accept_loop = some handle;
          },
          y,
        )

    unfoldable pub serve : RpcServer C A G T → X → RpcResult (Unit {0}) × RpcServer C A G T × X
    serve server x = serve_slot server.accept_loop server x

    -- `Drop`, for a lock that is not poisoned.
    unfoldable pub drop : RpcServer C A G T → X → X
    drop server x = abort_slot tasks server.accept_loop x

-- An inbound connection: how its acceptance, its protocol name and its handshake turn out. `Q` is
-- the type of connections.
pub record Incoming (Q : Type 0) : Type 0 where
  pub accept : Result Text (Unit {0})
  pub alpn : Result Text (List ℕ)
  pub connection : Result Text Q

-- What is done with a connection: its handler runs, or it is closed with a code and a reason.
pub data Action (A G Q : Type 0) : Type 0 where
  handle : AlpnHandler A G → Q → Action A G Q
  close : ℕ → List ℕ → Q → Action A G Q

module _ {A G Q : Type 0} where
  abbrev pub by_handler : Option (AlpnHandler A G) → Q → Action A G Q
  by_handler (some h) conn = Action.handle h conn
  by_handler none conn = Action.close close_no_handler (utf8 "no-handler-registered") conn

  -- The task of one turn of `run_accept_loop`; an error is only logged.
  unfoldable pub accept_connection : AlpnHandlerTable A G → Incoming Q → Result Text (Action A G Q)
  accept_connection handlers incoming = incoming.accept >>= λ _. incoming.alpn >>= λ alpn.
      incoming.connection >>= λ conn. ok (by_handler (get alpn handlers) conn)
