-- ===== src/Datagram/InFlight.antt =====
-- src/datagram.rs: the read loops of a dispatcher's connections with their tasks, which share one
-- semaphore, while the application registers and removes handlers, as a step relation.
use nerw_rpc.Prelude.{
  ℕ, zero, suc, ◌+◌, ◌≤◌, ◌<◌, List, [], ◌∷◌, ◌++◌, ◌≡◌, refl, ap, arith, length, length-append,
  length-split, ◌⊎◌, inl, inr,
}
use nerw_rpc.Context.{NodeId, Uuid}
use nerw_rpc.External.Leb128.{Leb128}
use nerw_rpc.Datagram.{
  DatagramDispatcher, DatagramHandler, register, unregister, dispatch, build_context,
}
use nerw_rpc.Datagram.Handlers.{IsDistinct, register-IsDistinct, unregister-IsDistinct}

-- A datagram that was read, with the peer of its connection.
abbrev pub Datagram : Type 0
Datagram = NodeId × List ℕ

-- The peers of the connections whose read loop runs; the tasks of all of them that wait for a permit
-- and those that hold one, by their datagrams; the permits of the dispatcher that are free; how many
-- tasks are done; the dispatcher; and the application's state.
pub record Tasks (W : Type 0) : Type 0 where
  pub connections : List NodeId
  pub waiting : List Datagram
  pub running : List Datagram
  pub permits : ℕ
  pub completed : ℕ
  pub dispatcher : DatagramDispatcher W
  pub state : W

-- No connection is subscribed yet, and all permits are free.
abbrev pub idle : {W : Type 0} → DatagramDispatcher W → W → Tasks W
idle d w = record {
  connections = [];
  waiting = [];
  running = [];
  permits = d.max_in_flight;
  completed = 0;
  dispatcher = d;
  state = w;
}

module _ {W : Type 0} (l : Leb128) where
  -- The task of a datagram: it waits for a permit, in any order; then it dispatches its frame, which
  -- is one step and may fail, to the handlers that are registered by then, and returns its permit.
  pub data Work (t : Tasks W) : Tasks W → Type 0 where
    acquire :
        (before after : List Datagram) (x : Datagram) (k : ℕ)
        → t.waiting ≡ before ++ (x ∷ after)
        → t.permits ≡ suc k
        → Work t (record t { waiting = before ++ after; running = x ∷ t.running; permits = k })
    complete :
        (before after : List Datagram) (from_peer : NodeId) (frame : List ℕ) (trace span : Uuid)
        → t.running ≡ before ++ ((from_peer, frame) ∷ after)
        → Work t (record t {
          running = before ++ after;
          permits = suc t.permits;
          completed = suc t.completed;
          state = (dispatch l t.dispatcher (build_context from_peer trace span) frame t.state).1;
        })

  -- A call of `subscribe_connection` and the loops that it spawned, with the number of datagrams that
  -- a step reads: a loop reads a datagram and spawns a task for it, and it ends once its connection is
  -- closed. The application may register and remove handlers at any time.
  pub data Step (t : Tasks W) : ℕ → Tasks W → Type 0 where
    subscribe :
        (from_peer : NodeId) → Step t 0 (record t { connections = from_peer ∷ t.connections })
    read_datagram :
        (before after : List NodeId) (from_peer : NodeId) (frame : List ℕ)
        → t.connections ≡ before ++ (from_peer ∷ after)
        → Step t 1 (record t { waiting = t.waiting ++ ((from_peer, frame) ∷ []) })
    close :
        (before after : List NodeId) (from_peer : NodeId)
        → t.connections ≡ before ++ (from_peer ∷ after)
        → Step t 0 (record t { connections = before ++ after })
    registers :
        (id : ℕ) (h : DatagramHandler W)
        → Step t 0 (record t { dispatcher = (register id h t.dispatcher).1 })
    unregisters : (id : ℕ) → Step t 0 (record t { dispatcher = (unregister id t.dispatcher).1 })
    work : {u : Tasks W} → Work t u → Step t 0 u

  -- The states that are reached, with the number of datagrams that were read.
  pub data Reached (start : Tasks W) : ℕ → Tasks W → Type 0 where
    here : Reached start 0 start
    next : {n k : ℕ} {t u : Tasks W} → Reached start n t → Step t k u → Reached start (n + k) u

  -- The permits that are free and those that are held make up the semaphore, every datagram that was
  -- read waits, is being dispatched, or is done, and there is one handler for a stream id.
  record IsBalanced (limit n : ℕ) (t : Tasks W) : Type 0 where
    pub held : length t.running + t.permits ≡ limit
    pub accounted : n ≡ length t.waiting + length t.running + t.completed
    pub distinct : IsDistinct t.dispatcher.handlers

  Step-IsBalanced :
      (limit n k : ℕ) (t u : Tasks W)
      → Step t k u
      → IsBalanced limit n t
      → IsBalanced limit (n + k) u
  Step-IsBalanced limit n _ t _ (subscribe from_peer) b = record {
    held = b.held;
    accounted = omega arith;
    distinct = b.distinct;
  }
  Step-IsBalanced limit n _ t _ (read_datagram before after from_peer frame o) b = record {
    held = b.held;
    accounted = omega (arith, length-append t.waiting ((from_peer, frame) ∷ []));
    distinct = b.distinct;
  }
  Step-IsBalanced limit n _ t _ (close before after from_peer o) b = record {
    held = b.held;
    accounted = omega arith;
    distinct = b.distinct;
  }
  Step-IsBalanced limit n _ t _ (registers id h) b = record {
    held = b.held;
    accounted = omega arith;
    distinct = register-IsDistinct id h t.dispatcher b.distinct;
  }
  Step-IsBalanced limit n _ t _ (unregisters id) b = record {
    held = b.held;
    accounted = omega arith;
    distinct = unregister-IsDistinct id t.dispatcher b.distinct;
  }
  Step-IsBalanced limit n _ t _ (work (acquire before after frame k e p)) b = record {
    held = omega arith;
    accounted = omega (arith, length-split before _ after e);
    distinct = b.distinct;
  }
  Step-IsBalanced limit n _ t _ (work (complete before after from_peer frame trace span e)) b =
      record {
        held = omega (arith, length-split before _ after e);
        accounted = omega (arith, length-split before _ after e);
        distinct = b.distinct;
      }

  -- A task that waits never waits in vain.
  some_task :
      (limit n : ℕ) (t : Tasks W) (running waiting : List Datagram) (permits : ℕ)
      → t.running ≡ running
      → t.waiting ≡ waiting
      → t.permits ≡ permits
      → IsBalanced limit n t
      → 0 < limit
      → ((u : Tasks W) × Work t u) ⊎ ((t.waiting ≡ []) × (t.running ≡ []))
  some_task limit n t ((from_peer, frame) ∷ running) waiting permits r w p b positive =
      inl (_, complete [] running from_peer frame [] [] r)
  some_task limit n t [] (frame ∷ waiting) (suc k) r w p b positive =
      inl (_, acquire [] waiting frame k w p)
  some_task limit n t [] (frame ∷ waiting) zero r w p b positive =
      absurd (omega (arith, b.held, ap length r))
  some_task limit n t [] [] permits r w p b positive = inr (w, r)

  module _ (d : DatagramDispatcher W) (w : W) (distinct : IsDistinct d.handlers) where
    Reached-IsBalanced :
        (n : ℕ) (t : Tasks W) → Reached (idle d w) n t → IsBalanced d.max_in_flight n t
    Reached-IsBalanced _ _ here = record {
      held = omega arith;
      accounted = omega arith;
      distinct = distinct;
    }
    Reached-IsBalanced _ u (next {n} {k} {t} before step) =
        Step-IsBalanced d.max_in_flight n k t u step (Reached-IsBalanced n t before)

    -- In every state that the read loops of a dispatcher's connections and their tasks reach, in any
    -- order of their steps, however many connections are subscribed and closed and whatever handlers
    -- are registered and removed meanwhile: at most `max_in_flight` datagrams of all connections
    -- together are being dispatched, as many datagrams were read as wait, are being dispatched, and
    -- are done, and no stream id has two handlers, if none had at first. If the limit is not zero,
    -- some task can take a step as long as not all the datagrams read so far are done.
    pub Reached-in_flight :
        (n : ℕ) (t : Tasks W)
        → Reached (idle d w) n t
        → 0 < d.max_in_flight
        → (length t.running ≤ d.max_in_flight)
          × (n ≡ length t.waiting + length t.running + t.completed)
          × IsDistinct t.dispatcher.handlers
          × (((u : Tasks W) × Work t u) ⊎ (t.completed ≡ n))
    Reached-in_flight n t reached positive =
        let b = Reached-IsBalanced n t reached in
        (
          omega (arith, b.held),
          b.accounted,
          b.distinct,
          elim (some_task d.max_in_flight n t t.running t.waiting t.permits refl refl refl b
              positive) [
                | inl step ↦ inl step
                | inr (e, r) ↦ inr (omega (arith, b.accounted, ap length e, ap length r))
              ],
        )
