-- ===== src/Server/Connections/Progress.antt =====
-- Every substream that a server accepted comes to be handled.
use nerw_rpc.Prelude.{
  ℕ, zero, suc, ◌+◌, ◌*◌, ◌<◌, List, [], ◌∷◌, ◌≡◌, ◌⊎◌, inl, inr, refl, ap, arith, length,
  length-split,
}
use nerw_rpc.Registry.{MethodRegistry}
use nerw_rpc.External.Quic.{RecvLaws}
use nerw_rpc.Server.Dispatch.{MethodHandler}
use nerw_rpc.Server.Streaming.{StreamingMethodHandler}
use nerw_rpc.Server.Accept.{RpcServer, wire_handler}
use nerw_rpc.Server.Connections.{
  Crates, Substream, Readings, Serving, start_serving, arrival, handle_substream, Work, acquire,
  complete, Reached,
}
use nerw_rpc.Server.Connections.Bounds.{IsBalanced, Work-IsBalanced, Reached-IsBalanced}
use nerw_rpc.StreamingCall.Total.{handle_inbound_substream-Handled}

-- The steps that the tasks of the accepted substreams still take: two for one that waits.
abbrev pub remaining : {Q R S W : Type 0} → Serving Q R S W → ℕ
remaining t = 2 * length t.waiting + length t.running

module _ {Q R S W : Type 0} (c : Crates Q R S)
    (registry : MethodRegistry (MethodHandler W) (StreamingMethodHandler W)) where
  -- That many steps of the tasks, in any order.
  pub data Works (t : Serving Q R S W) : ℕ → Serving Q R S W → Type 0 where
    rest : Works t 0 t
    then_step :
        {k : ℕ} {u v : Serving Q R S W} → Works t k u → Work c registry u v → Works t (suc k) v

  Work-remaining : (t u : Serving Q R S W) → Work c registry t u → suc (remaining u) ≡ remaining t
  Work-remaining t _ (acquire before after s k e p) = omega (arith, length-split before s after e)
  Work-remaining t _ (complete before after s now fuel send app e p) =
      omega (arith, length-split before s after e)

  Works-remaining :
      (t : Serving Q R S W) (k : ℕ) (u : Serving Q R S W)
      → Works t k u
      → k + remaining u ≡ remaining t
  Works-remaining t _ _ rest = omega arith
  Works-remaining t _ v (then_step {k} {u} before step) =
      omega (arith, Works-remaining t k u before, Work-remaining u v step)

module _ {Q R S W C A T : Type 0} (c : Crates Q R S) (laws : RecvLaws c.recv) (now : Readings)
    (server : RpcServer C A (MethodRegistry (MethodHandler W) (StreamingMethodHandler W)) T) where
  Works-IsBalanced :
      (n : ℕ) (t : Serving Q R S W) (k : ℕ) (u : Serving Q R S W)
      → Works c server.registry t k u
      → IsBalanced c server n t
      → IsBalanced c server n u
  Works-IsBalanced n t _ _ rest b = b
  Works-IsBalanced n t _ v (then_step {k} {u} before step) b =
      Work-IsBalanced c server n u v step (Works-IsBalanced n t k u before b)

  -- A task that holds a permit handles its substream; if there is none, a permit is free.
  some_task_or_idle :
      (n : ℕ) (t : Serving Q R S W) (running waiting : List (Substream Q R S)) (permits : ℕ)
      → t.running ≡ running
      → t.waiting ≡ waiting
      → t.stream_permits ≡ permits
      → IsBalanced c server n t
      → 0 < server.config.max_concurrent_streams
      → ((u : Serving Q R S W) × Work c server.registry t u) ⊎ ((t.waiting ≡ []) × (t.running ≡ []))
  unfolding handle_substream
  some_task_or_idle n t (s ∷ running) waiting permits r w p b positive =
      let (out, e) =
        handle_inbound_substream-Handled laws c.send c.leb128 c.show_utf8 c.show_read
          c.debug_strings c.debug_frame c.postcard c.codecs server.registry
          (arrival c.remote_id s now) (suc (length (laws.pending s.recv))) s.recv s.send t.app
          (omega arith) in
      inl (_, complete [] running s now (suc (length (laws.pending s.recv))) out.0 out.1 r e)
  some_task_or_idle n t [] (s ∷ waiting) (suc k) r w p b positive =
      inl (_, acquire [] waiting s k w p)
  some_task_or_idle n t [] (s ∷ waiting) zero r w p b positive =
      absurd (omega (arith, b.streams, ap length r))
  some_task_or_idle n t [] [] permits r w p b positive = inr (w, r)

  -- From every state that a server reaches, and in whatever order the tasks of its substreams take
  -- their steps, if the limit on substreams is not zero and every peer's stream is finite: the tasks
  -- take at most two steps for each substream that waits and one for each that is being handled, and
  -- as long as not all the `n` substreams accepted so far are handled some task can take a step.
  pub Works-handled :
      (app : W) (m n k : ℕ) (t u : Serving Q R S W)
      → Reached c server.registry (start_serving (wire_handler server) app) m n t
      → Works c server.registry t k u
      → 0 < server.config.max_concurrent_streams
      → (k + remaining u ≡ remaining t)
        × (((v : Serving Q R S W) × Work c server.registry u v)
            ⊎ ((u.waiting ≡ []) × (u.running ≡ []) × (length u.handled ≡ n)))
  Works-handled app m n k t u reached works positive =
      let b = Works-IsBalanced n t k u works (Reached-IsBalanced c server app m n t reached) in
      (
        Works-remaining c server.registry t k u works,
        elim (some_task_or_idle n u u.running u.waiting u.stream_permits refl refl refl b
            positive) [
              | inl step ↦ inl step
              | inr (w, r) ↦ inr (w, r, omega (arith, b.accepted, ap length w, ap length r))
            ],
      )
