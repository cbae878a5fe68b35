-- ===== src/Server/Connections/Bounds.antt =====
-- What holds of the connections and substreams in every state that a server reaches.
use nerw_rpc.Prelude.{
  ℕ, ◌+◌, ◌^◌, ◌≤◌, ◌<◌, List, [], ◌∷◌, ◌++◌, ◌≡◌, refl, arith, length, length-split, ◌==◌,
  if◌then◌else◌,
}
use nerw_rpc.Registry.{MethodRegistry}
use nerw_rpc.Server.Dispatch.{MethodHandler}
use nerw_rpc.Server.Streaming.{StreamingMethodHandler}
use nerw_rpc.Server.Accept.{RpcServer, wire_handler}
use nerw_rpc.Server.Connections.{
  Crates, Serving, start_serving, Work, acquire, complete, Step, handle, admit, accept_bi,
  terminate, work, Reached, here, next,
}

module _ {Q : Type 0} (id : ℕ) where
  -- How many of the connections have the id.
  abbrev pub count_id : List (Q × ℕ) → ℕ
  count_id [] = 0
  count_id ((_, i) ∷ qs) = (if i == id then 1 else 0) + count_id qs

  count_id-middle :
      (xs : List (Q × ℕ)) (q : Q) (i : ℕ) (ys : List (Q × ℕ))
      → count_id (xs ++ ((q, i) ∷ ys)) ≡ (if i == id then 1 else 0) + count_id (xs ++ ys)
  count_id-middle [] q i ys = refl
  count_id-middle ((_, j) ∷ xs) q i ys = omega (arith, count_id-middle xs q i ys)

  count_id-split :
      {l : List (Q × ℕ)} (xs : List (Q × ℕ)) (q : Q × ℕ) (ys : List (Q × ℕ))
      → l ≡ xs ++ (q ∷ ys)
      → count_id l ≡ (if q.1 == id then 1 else 0) + count_id (xs ++ ys)
  count_id-split xs q ys e = rw e (count_id-middle xs q.0 q.1 ys)

module _ {Q R S W C A T : Type 0} (c : Crates Q R S)
    (server : RpcServer C A (MethodRegistry (MethodHandler W) (StreamingMethodHandler W)) T) where
  -- The permits that are free and those that are held make up each semaphore, and every substream
  -- waits, is being handled or was handled.
  pub record IsBalanced (n : ℕ) (t : Serving Q R S W) : Type 0 where
    pub connections :
        length t.looping + t.connection_permits ≡ server.config.max_concurrent_connections
    pub streams : length t.running + t.stream_permits ≡ server.config.max_concurrent_streams
    pub accepted : n ≡ length t.waiting + length t.running + length t.handled

  -- Ids are given in order from 1, and those of open connections differ.
  record HasIds (m : ℕ) (t : Serving Q R S W) : Type 0 where
    pub counter : t.connection_id_counter ≡ m + 1
    pub unique : (id : ℕ) → count_id id t.blocked + count_id id t.looping ≤ 1
    pub given : (id : ℕ) → m < id → count_id id t.blocked + count_id id t.looping ≡ 0

  pub Work-IsBalanced :
      (n : ℕ) (t u : Serving Q R S W) → Work c server.registry t u → IsBalanced n t → IsBalanced n u
  Work-IsBalanced n t _ (acquire before after s k e p) b = record {
    connections = b.connections;
    streams = omega arith;
    accepted = omega (arith, length-split before s after e);
  }
  Work-IsBalanced n t _ (complete before after s now fuel send app e p) b = record {
    connections = b.connections;
    streams = omega (arith, length-split before s after e);
    accepted = omega (arith, length-split before s after e);
  }

  Step-IsBalanced :
      (i n j : ℕ) (t u : Serving Q R S W)
      → Step c server.registry t i j u
      → IsBalanced n t
      → IsBalanced (n + j) u
  Step-IsBalanced _ n _ t _ (handle q) b = record {
    connections = b.connections;
    streams = b.streams;
    accepted = omega arith;
  }
  Step-IsBalanced _ n _ t _ (admit before after q k e p) b = record {
    connections = omega arith;
    streams = b.streams;
    accepted = omega arith;
  }
  Step-IsBalanced _ n _ t _ (accept_bi before after q id stream_id recv send e) b = record {
    connections = b.connections;
    streams = b.streams;
    accepted = omega arith;
  }
  Step-IsBalanced _ n _ t _ (terminate before after q e) b = record {
    connections = omega (arith, length-split before q after e);
    streams = b.streams;
    accepted = omega arith;
  }
  Step-IsBalanced _ n _ t u (work step) b =
      let b' = Work-IsBalanced n t u step b in
      record { connections = b'.connections; streams = b'.streams; accepted = omega arith }

  Step-HasIds :
      (m i j : ℕ) (t u : Serving Q R S W)
      → Step c server.registry t i j u
      → m + i + 1 < 2 ^ 64
      → HasIds m t
      → HasIds (m + i) u
  Step-HasIds m _ _ t _ (handle q) small h = record {
    counter = omega arith;
    unique = λ id. ground (arith, h.unique id, h.given id);
    given = λ id above. ground (arith, h.given id);
  }
  Step-HasIds m _ _ t _ (admit before after q k e p) small h = record {
    counter = omega arith;
    unique = λ id. omega (arith, h.unique id, count_id-split id before q after e);
    given = λ id above. omega (arith, h.given id (omega arith), count_id-split id before q after e);
  }
  Step-HasIds m _ _ t _ (accept_bi before after q id stream_id recv send e) small h = record {
    counter = omega arith;
    unique = h.unique;
    given = λ id above. h.given id (omega arith);
  }
  Step-HasIds m _ _ t _ (terminate before after q e) small h = record {
    counter = omega arith;
    unique = λ id. omega (arith, h.unique id, count_id-split id before q after e);
    given = λ id above. omega (arith, h.given id (omega arith), count_id-split id before q after e);
  }
  Step-HasIds m _ _ t _ (work (acquire before after s k e p)) small h = record {
    counter = omega arith;
    unique = h.unique;
    given = λ id above. h.given id (omega arith);
  }
  Step-HasIds m _ _ t _ (work (complete before after s now fuel send app e p)) small h = record {
    counter = omega arith;
    unique = h.unique;
    given = λ id above. h.given id (omega arith);
  }

  module _ (app : W) where
    abbrev started : Serving Q R S W
    started = start_serving (wire_handler server) app

    pub Reached-IsBalanced :
        (m n : ℕ) (t : Serving Q R S W) → Reached c server.registry started m n t → IsBalanced n t
    Reached-IsBalanced _ _ _ here = record {
      connections = omega arith;
      streams = omega arith;
      accepted = omega arith;
    }
    Reached-IsBalanced _ _ u (next {m} {n} {i} {j} {t} before step) =
        Step-IsBalanced i n j t u step (Reached-IsBalanced m n t before)

    Reached-HasIds :
        (m n : ℕ) (t : Serving Q R S W)
        → Reached c server.registry started m n t
        → m + 1 < 2 ^ 64
        → HasIds m t
    Reached-HasIds _ _ _ here small = record {
      counter = refl;
      unique = λ id. omega arith;
      given = λ id above. omega arith;
    }
    Reached-HasIds _ _ u (next {m} {n} {i} {j} {t} before step) small =
        Step-HasIds m i j t u step small (Reached-HasIds m n t before (omega arith))

    -- In every state that the connections and substreams of a server reach, in any order of their
    -- steps, at most `max_concurrent_connections` connections are in their accept loop and at most
    -- `max_concurrent_streams` substreams are being handled, and every substream that was accepted
    -- waits, is being handled, or was handled.
    pub Reached-within_limits :
        (m n : ℕ) (t : Serving Q R S W)
        → Reached c server.registry started m n t
        → (length t.looping ≤ server.config.max_concurrent_connections)
          × (length t.running ≤ server.config.max_concurrent_streams)
          × (n ≡ length t.waiting + length t.running + length t.handled)
    Reached-within_limits m n t reached =
        let b = Reached-IsBalanced m n t reached in
        (omega (arith, b.connections), omega (arith, b.streams), b.accepted)

    -- While fewer than 2 ^ 64 - 1 connections were accepted, no two open connections have the same
    -- id, whether they wait for a permit or are in their accept loop, and no id that is still to be
    -- given is in use. The next id is one more than the number of connections.
    Reached-unique_ids :
        (m n : ℕ) (t : Serving Q R S W)
        → Reached c server.registry started m n t
        → m + 1 < 2 ^ 64
        → (t.connection_id_counter ≡ m + 1)
          × ((id : ℕ) → count_id id t.blocked + count_id id t.looping ≤ 1)
          × ((id : ℕ) → m < id → count_id id t.blocked + count_id id t.looping ≡ 0)
    Reached-unique_ids m n t reached small =
        let h = Reached-HasIds m n t reached small in (h.counter, h.unique, h.given)
