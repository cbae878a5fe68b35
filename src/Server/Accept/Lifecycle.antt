-- ===== src/Server/Accept/Lifecycle.antt =====
-- src/server.rs: the accept loop that a server spawns, over a history of calls.
use nerw_rpc.Prelude.{List, [], ◌∷◌, ◌≡◌, refl, ap, sym, inl, inr, Option, none, some, true, false}
use nerw_rpc.External.Executor.{Executor, ExecutorLaws}
use nerw_rpc.Transport.{IrohTransportClient}
use nerw_rpc.Server.{RpcServerConfig}
use nerw_rpc.Server.Accept.{
  RpcServer, with_config, register_alpn_handler, serve, serve_slot, abort_slot, drop,
  accept_loop_running,
}
use nerw_rpc.Server.Accept.History.{
  State, Call, registers, serves, run, run-Left, after_serve, answers, serve_count, is_positive,
}

module _ {C A G T X : Type 0} {e : Executor X T} (laws : ExecutorLaws e) where
  -- The tasks that run the accept loop are those that the server can abort.
  Held : State C A G T X → Type 0
  Held s = (t : T) → laws.running t s.tasks ≡ true → s.server.accept_loop ≡ some t

  serve_slot-Held :
      (s : State C A G T X) (slot : Option T)
      → s.server.accept_loop ≡ slot
      → Held s
      → Held (after_serve e s.replies (serve_slot e slot s.server s.tasks))
  unfolding Held
  serve_slot-Held s (some h) held inv = inv
  serve_slot-Held s none held inv = λ t running. elim (laws.spawn-running s.tasks t running) [
    | inl same ↦ ap some (sym same)
    | inr old ↦ absurd (cc (inv t old))
  ]

  run-Held :
      (server : RpcServer C A G T) (x : X) (calls : List (Call A))
      → ((t : T) → laws.running t x ≡ false)
      → Held (run e calls server x)
  unfolding Held register_alpn_handler serve
  run-Held server x [] idle = λ t running. absurd (cc (idle t))
  run-Held server x (registers alpn h ∷ calls) idle = run-Held server x calls idle
  run-Held server x (serves ∷ calls) idle =
      let s = run e calls server x in
      serve_slot-Held s s.server.accept_loop refl (run-Held server x calls idle)

  abort_slot-is_aborted :
      (s : State C A G T X) (slot : Option T)
      → s.server.accept_loop ≡ slot
      → Held s
      → (t : T) → laws.running t (abort_slot e slot s.tasks) ≡ true
      → laws.is_aborted t (abort_slot e slot s.tasks) ≡ true
  unfolding Held
  abort_slot-is_aborted s none held inv t running = absurd (cc (inv t running))
  abort_slot-is_aborted s (some h) held inv t running =
      let same : t ≡ h = cc (inv t (laws.abort-running h t s.tasks running)) in
      rw same (laws.abort-is_aborted h s.tasks)

  -- Of all the calls of `serve` on a server exactly the first succeeds, and each later one answers
  -- AlreadyServing, whatever handlers are registered between. Where no accept loop ran before, the
  -- server holds the handle of an accept loop once `serve` was called, and no earlier; only the
  -- task of that handle can run an accept loop, so there is never a second one; and once the
  -- server is dropped, the cancellation of every task that still runs one is asked for.
  pub serve_once :
      (transport : IrohTransportClient C) (registry : G) (config : RpcServerConfig) (x : X)
      (calls : List (Call A))
      → ((t : T) → laws.running t x ≡ false)
      → let s : State C A G T X = run e calls (with_config transport registry config) x in
        (s.replies ≡ answers (serve_count calls))
        × (accept_loop_running s.server ≡ is_positive (serve_count calls))
        × ((t : T) → laws.running t s.tasks ≡ true → s.server.accept_loop ≡ some t)
        × ((t : T)
            → laws.running t (drop e s.server s.tasks) ≡ true
            → laws.is_aborted t (drop e s.server s.tasks) ≡ true)
  unfolding Held drop
  serve_once transport registry config x calls idle =
      let server : RpcServer C A G T = with_config transport registry config in
      let s = run e calls server x in
      let left = run-Left e transport registry config x calls in
      let inv = run-Held server x calls idle in
      (left.replies, left.serving, inv, abort_slot-is_aborted s s.server.accept_loop refl inv)
