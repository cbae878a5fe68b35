-- ===== src/Datagram.antt =====
-- src/datagram.rs: the dispatcher of datagrams. A handler reads and changes the application's state.
pub mod Handlers
pub mod InFlight
use nerw_rpc.Prelude.{
  ℕ, zero, ◌-◌, List, [], ◌∷◌, Option, none, some, ◌==◌, if◌then◌else◌, length, drop,
}
use nerw_rpc.Prelude.Ints.{pos}
use nerw_rpc.Prelude.Text.{Text, utf8}
use nerw_rpc.Result.{Result, ok, err}
use nerw_rpc.Error.{RpcError, RpcResult}
use nerw_rpc.Wire.{decode_stream_id}
use nerw_rpc.Transport.{alpn_nerw_datagram_1_0_0}
use nerw_rpc.Context.{NodeId, Uuid, RpcContext, fresh, zero_timing}
use nerw_rpc.Io.{Io, ◌>>=◌, lift}
use nerw_rpc.External.Leb128.{Leb128}

abbrev pub default_max_concurrent_datagrams : ℕ
default_max_concurrent_datagrams = 1024

abbrev pub DatagramHandler : Type 0 → Type 0
DatagramHandler W = RpcContext → List ℕ → Io W (Unit {0})

-- `DashMap<u64, _>` as the list of its entries, and the size of the semaphore.
pub record DatagramDispatcher (W : Type 0) : Type 0 where
  pub handlers : List (ℕ × DatagramHandler W)
  pub max_in_flight : ℕ

-- `DashMap::get` and `DashMap::remove`.
module _ {V : Type 0} where
  abbrev pub find : ℕ → List (ℕ × V) → Option V
  find k [] = none
  find k ((j, v) ∷ m) = if j == k then some v else find k m

  abbrev pub remove : ℕ → List (ℕ × V) → List (ℕ × V)
  remove k [] = []
  remove k ((j, v) ∷ m) = if j == k then m else (j, v) ∷ remove k m

module _ {W : Type 0} where
  -- `err` is the panic of the assertion.
  abbrev pub with_max_in_flight : ℕ → Result Text (DatagramDispatcher W)
  with_max_in_flight zero =
      err (utf8 "DatagramDispatcher max_in_flight must be > 0; zero would deadlock the dispatcher")
  with_max_in_flight max = ok (record { handlers = []; max_in_flight = max })

  abbrev pub new : Result Text (DatagramDispatcher W)
  new = with_max_in_flight default_max_concurrent_datagrams

  -- The entry is occupied or vacant.
  abbrev pub fill_entry :
      Option (DatagramHandler W)
      → ℕ
      → DatagramHandler W
      → DatagramDispatcher W
      → RpcResult (Unit {0}) × DatagramDispatcher W
  fill_entry (some _) stream_id handler self =
      (err (RpcError.datagram_stream_id_collision stream_id), self)
  fill_entry none stream_id handler self = (
    ok tt,
    record { handlers = (stream_id, handler) ∷ self.handlers; max_in_flight = self.max_in_flight },
  )

  unfoldable pub register :
      ℕ → DatagramHandler W → DatagramDispatcher W → RpcResult (Unit {0}) × DatagramDispatcher W
  register stream_id handler self = fill_entry (find stream_id self.handlers) stream_id handler self

  unfoldable pub unregister :
      ℕ → DatagramDispatcher W → Option (DatagramHandler W) × DatagramDispatcher W
  unregister stream_id self = (
    find stream_id self.handlers,
    record { handlers = remove stream_id self.handlers; max_in_flight = self.max_in_flight },
  )

  abbrev pub registered_count : DatagramDispatcher W → ℕ
  registered_count self = length self.handlers

  -- The call of the handler that was looked up.
  abbrev pub deliver : Option (DatagramHandler W) → ℕ → RpcContext → List ℕ → Io W (Unit {0})
  deliver (some h) stream_id ctx payload = h ctx payload
  deliver none stream_id ctx payload = lift (err (RpcError.datagram_stream_id_unknown stream_id))

  -- The payload is the frame without the prefix that was consumed.
  abbrev pub deliver_decoded :
      DatagramDispatcher W → RpcContext → List ℕ → ℕ × List ℕ → Io W (Unit {0})
  deliver_decoded self ctx frame (stream_id, payload_slice) =
      deliver (find stream_id self.handlers) stream_id ctx
        (drop (length frame - length payload_slice) frame)

  unfoldable pub dispatch : Leb128 → DatagramDispatcher W → RpcContext → List ℕ → Io W (Unit {0})
  dispatch l self ctx [] = lift (err (RpcError.datagram_too_short 0))
  dispatch l self ctx (b ∷ s) =
      lift (decode_stream_id l (b ∷ s)) >>= deliver_decoded self ctx (b ∷ s)

-- `DatagramDispatcher::build_context`, given the two ids that `Uuid::new_v4` draws.
abbrev pub build_context : NodeId → Uuid → Uuid → RpcContext
build_context from_peer trace span = record {
  peer = record {
    node_id = from_peer;
    connection_id = 0;
    stream_id = 0;
    alpn = alpn_nerw_datagram_1_0_0;
    handshake_at_ms = pos 0;
    tls_cipher_suite = none;
  };
  timing = zero_timing;
  auth = none;
  session = none;
  tracing = fresh trace span;
}
