-- ===== src/Tests/Datagram.antt =====
-- Datagrams at concrete inputs.
use nerw_rpc.Prelude.{ℕ, ◌+◌, ◌≤◌, List, [], ◌∷◌, ◌++◌, ◌≡◌, ◌≢◌, ◌⊎◌, refl, arith, none, some}
use nerw_rpc.Result.{ok, err}
use nerw_rpc.Error.{RpcError}
use nerw_rpc.Wire.{encode_stream_id}
use nerw_rpc.Context.{RpcContext}
use nerw_rpc.Datagram.{
  DatagramDispatcher, DatagramHandler, default_max_concurrent_datagrams, new, with_max_in_flight,
  find, register, unregister, registered_count, dispatch, build_context,
}
use nerw_rpc.Datagram.Handlers.{IsDistinct, register_lem, dispatch-encode}
use nerw_rpc.Datagram.InFlight.{
  Tasks, Work, Reached, idle, subscribe, here, next, read_datagram, work, acquire,
  Reached-in_flight,
}
use nerw_rpc.Tests.Instances.Leb128.{leb128, leb128_laws}

-- The state is the list of the payloads.
abbrev pub keep : DatagramHandler (List (List ℕ))
keep ctx payload seen = (ok tt, payload ∷ seen)

abbrev pub dispatcher : DatagramDispatcher (List (List ℕ))
dispatcher = record { handlers = (7, keep) ∷ []; max_in_flight = 2 }

abbrev context : RpcContext
context = build_context [] [] []

built :
    (new {W = ℕ} ≡ ok (record { handlers = []; max_in_flight = default_max_concurrent_datagrams }))
    × (with_max_in_flight 0 ≢ ok dispatcher)
built = (refl, λ e. cc)

dispatched : dispatch leb128 dispatcher context (7 ∷ 1 ∷ 2 ∷ []) [] ≡ (ok tt, (1 ∷ 2 ∷ []) ∷ [])
unfolding dispatch nerw_rpc.Wire.decode_stream_id nerw_rpc.Tests.Instances.Leb128.read_groups
dispatched = refl

dispatch-encode_example :
    ((wire : List ℕ) × (encode_stream_id leb128 300 [] ≡ ok wire)
      × (((h : DatagramHandler (List (List ℕ))) × (find 300 dispatcher.handlers ≡ some h)
            × (dispatch leb128 dispatcher context (wire ++ (1 ∷ [])) [] ≡ h context (1 ∷ []) []))
          ⊎ ((find 300 dispatcher.handlers ≡ none)
              × (dispatch leb128 dispatcher context (wire ++ (1 ∷ [])) []
                  ≡ (err (RpcError.datagram_stream_id_unknown 300), [])))))
    × (dispatch leb128 dispatcher context [] [] ≡ (err (RpcError.datagram_too_short 0), []))
dispatch-encode_example =
    dispatch-encode leb128_laws dispatcher 300 (1 ∷ []) context [] (omega arith)

register_lem_example :
    ((k : DatagramHandler (List (List ℕ))) × (find 8 dispatcher.handlers ≡ some k)
      × (register 8 keep dispatcher ≡ (err (RpcError.datagram_stream_id_collision 8), dispatcher)))
    ⊎ ((e : DatagramDispatcher (List (List ℕ))) × (find 8 dispatcher.handlers ≡ none)
        × (register 8 keep dispatcher ≡ (ok tt, e))
        × IsDistinct e.handlers
        × (registered_count e ≡ 1 + 1)
        × ((j : ℕ) → j ≢ 8 → find j e.handlers ≡ find j dispatcher.handlers)
        × (unregister 8 e ≡ (some keep, dispatcher)))
register_lem_example = register_lem 8 keep dispatcher (refl, tt)

-- A datagram of each of two connections was read, one of them is being dispatched, and one of the
-- two permits is left for both connections.
abbrev two_read : Tasks (List (List ℕ))
two_read = record {
  connections = (8 ∷ []) ∷ (9 ∷ []) ∷ [];
  waiting = ((9 ∷ []), 7 ∷ 2 ∷ []) ∷ [];
  running = ((8 ∷ []), 7 ∷ 1 ∷ []) ∷ [];
  permits = 1;
  completed = 0;
  dispatcher = dispatcher;
  state = [];
}

two_read-Reached : Reached leb128 (idle dispatcher []) 2 two_read
two_read-Reached =
    next
      (next
        (next (next (next here (subscribe (9 ∷ []))) (subscribe (8 ∷ [])))
          (read_datagram [] ((9 ∷ []) ∷ []) (8 ∷ []) (7 ∷ 1 ∷ []) refl))
        (read_datagram ((8 ∷ []) ∷ []) [] (9 ∷ []) (7 ∷ 2 ∷ []) refl))
      (work (acquire [] (((9 ∷ []), 7 ∷ 2 ∷ []) ∷ []) ((8 ∷ []), 7 ∷ 1 ∷ []) 1 refl refl))

Reached-in_flight_example :
    (1 ≤ 2)
    × (2 ≡ 1 + 1 + 0)
    × IsDistinct dispatcher.handlers
    × (((u : Tasks (List (List ℕ))) × Work leb128 two_read u) ⊎ (two_read.completed ≡ 2))
Reached-in_flight_example =
    Reached-in_flight leb128 dispatcher [] (refl, tt) 2 two_read two_read-Reached (omega arith)
