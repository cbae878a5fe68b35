-- ===== src/Transport.antt =====
-- src/transport.rs: the protocol names that an endpoint declares, and the handle of the transport.
use nerw_rpc.Prelude.{ℕ, List, [], ◌∷◌}
use nerw_rpc.Prelude.Text.{utf8}

abbrev pub alpn_nerw_rpc_1_0_0 : List ℕ
alpn_nerw_rpc_1_0_0 = utf8 "nerw/rpc/1.0.0"

abbrev pub alpn_nerw_datagram_1_0_0 : List ℕ
alpn_nerw_datagram_1_0_0 = utf8 "nerw/datagram/1.0.0"

abbrev pub alpn_nerw_mesh_1_0_0 : List ℕ
alpn_nerw_mesh_1_0_0 = utf8 "nerw/mesh/1.0.0"

abbrev pub alpn_nerw_transit_1_0_0 : List ℕ
alpn_nerw_transit_1_0_0 = utf8 "nerw/transit/1.0.0"

abbrev pub nerw_rpc_alpns : List (List ℕ)
nerw_rpc_alpns =
    alpn_nerw_rpc_1_0_0 ∷ alpn_nerw_datagram_1_0_0 ∷ alpn_nerw_mesh_1_0_0 ∷ alpn_nerw_transit_1_0_0
    ∷ []

-- `T` is the type of the client of nerw_core.
pub record IrohTransportClient (T : Type 0) : Type 0 where
  pub inner : T
