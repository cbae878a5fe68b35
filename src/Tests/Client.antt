-- ===== src/Tests/Client.antt =====
-- The client's calls at concrete inputs.
use nerw_rpc.Prelude.{ℕ, suc, List, [], ◌∷◌, ◌≡◌, refl, Bool, true, false}
use nerw_rpc.Prelude.Text.{Text, utf8}
use nerw_rpc.Result.{Result, ok, err}
use nerw_rpc.Error.{RpcError}
use nerw_rpc.Context.{NodeId}
use nerw_rpc.External.Network.{Network}
use nerw_rpc.External.Quic.{finished_early}
use nerw_rpc.Client.{call, call_inner, decode_response_frame}
use nerw_rpc.Client.Eviction.{Outcome, call-Outcome}
use nerw_rpc.Tests.Instances.Leb128.{leb128}
use nerw_rpc.Tests.Instances.Postcard.{wire_error}

-- A network with one connection: what the peer answers, whether it takes what is written, and how
-- often the cached connection was evicted.
record World : Type 0 where
  pub response : List ℕ
  pub alive : Bool
  pub evicted : ℕ

abbrev lost : {A : Type 0} → A → World → Result Text A × World
lost a w = elim w.alive [ true ↦ (ok a, w) | false ↦ (err (utf8 "connection lost"), w) ]

abbrev network : Network World
network = record {
  Stream = Unit;
  open_substream = λ peer alpn w. (ok tt, w);
  evict_cached_connection =
      λ peer alpn w. record { response = w.response; alive = w.alive; evicted = suc w.evicted };
  send = λ stream. record { write_all = λ bytes. lost tt; finish = lost tt };
  recv = λ stream. record {
    read_exact = λ n w. (err (finished_early 0), w);
    read_to_end = λ limit w. (ok w.response, w);
  };
}

abbrev show_node : NodeId → Text
show_node _ = utf8 "peer"

abbrev name : Text
name = utf8 "t:e@1/i/echo"

abbrev dead : World
dead = record { response = []; alive = false; evicted = 0 }

-- A write on a lost connection evicts it, an answer that is garbage does not.
call-dead : call network leb128 wire_error show_node [] name [] dead ≡ (
  err (RpcError.transport_write (utf8 "write_all: connection lost")),
  record { response = []; alive = false; evicted = 1 },
)
unfolding call call_inner nerw_rpc.Client.open_substream nerw_rpc.Client.exchange
    nerw_rpc.Client.is_transport_io_error nerw_rpc.Server.Frame.build_unary_request_frame
    nerw_rpc.Wire.encode_method_name nerw_rpc.External.Leb128.groups
call-dead = refl

call-garbage :
    call network leb128 wire_error show_node [] name []
      (record { response = 9 ∷ []; alive = true; evicted = 0 })
    ≡ (
      err (RpcError.malformed_frame (utf8 "unexpected response opcode 0x09")),
      record { response = 9 ∷ []; alive = true; evicted = 0 },
    )
unfolding call call_inner nerw_rpc.Client.open_substream nerw_rpc.Client.exchange
    decode_response_frame nerw_rpc.Client.is_transport_io_error
    nerw_rpc.Server.Frame.build_unary_request_frame nerw_rpc.Wire.encode_method_name
    nerw_rpc.External.Leb128.groups
call-garbage = refl

call-Outcome_example :
    Outcome network leb128 wire_error show_node [] name [] dead
      (call network leb128 wire_error show_node [] name [] dead)
call-Outcome_example = call-Outcome network leb128 wire_error show_node [] name [] dead
