-- ===== src/External/Network.antt =====
-- `nerw_core::client::Client` and the connections that it caches, as a parameter.
use nerw_rpc.Prelude.{ℕ, List}
use nerw_rpc.Prelude.Text.{Text}
use nerw_rpc.Result.{Result}
use nerw_rpc.External.Quic.{RecvStream, SendStream}

-- The client and the network in state `N`. A substream is a handle with its two halves, whose
-- operations act on the same state: what is received may depend on what was sent.
pub record Network (N : Type 0) : Type 1 where
  pub Stream : Type 0
  pub open_substream : List ℕ → List ℕ → N → Result Text Stream × N
  pub evict_cached_connection : List ℕ → List ℕ → N → N
  pub send : Stream → SendStream N
  pub recv : Stream → RecvStream N
