-- ===== src/Codec.antt =====
-- src/codec.rs: postcard behind the framework's error.
use nerw_rpc.Prelude.{ℕ, List, ◌++◌}
use nerw_rpc.Result.{ok, map_err, ◌>>=◌}
use nerw_rpc.Error.{RpcError, RpcResult}
use nerw_rpc.External.Postcard.{Postcard}

module _ {A : Type 0} (p : Postcard A) where
  abbrev pub encode : A → RpcResult (List ℕ)
  encode value = map_err RpcError.codec (p.to_allocvec value)

  abbrev pub decode : List ℕ → RpcResult A
  decode bytes = map_err RpcError.codec (p.from_bytes bytes)

  -- The bytes behind what the buffer holds.
  abbrev pub encode_to : A → List ℕ → RpcResult (List ℕ)
  encode_to value buf = map_err RpcError.codec (p.to_allocvec value) >>= λ bytes. ok (buf ++ bytes)
