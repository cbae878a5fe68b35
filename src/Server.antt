-- ===== src/Server.antt =====
-- src/server.rs: the inbound side.
pub mod Frame
pub mod Dispatch
pub mod Pump
pub mod Streaming
pub mod Inbound
pub mod Accept
pub mod Connections
pub mod Tasks
use nerw_rpc.Prelude.{ℕ, ◌*◌}

abbrev pub rpc_stream_read_limit : ℕ
rpc_stream_read_limit = 8 * 1024 * 1024

abbrev pub default_max_concurrent_streams : ℕ
default_max_concurrent_streams = 256

abbrev pub default_max_concurrent_connections : ℕ
default_max_concurrent_connections = 1024

abbrev pub close_no_handler : ℕ
close_no_handler = 1

pub record RpcServerConfig : Type 0 where
  pub max_concurrent_streams : ℕ
  pub max_concurrent_connections : ℕ

-- `RpcServerConfig::default`.
abbrev pub default_config : RpcServerConfig
default_config = record {
  max_concurrent_streams = default_max_concurrent_streams;
  max_concurrent_connections = default_max_concurrent_connections;
}
