-- ===== src/Server/Tasks/Ending.antt =====
-- The tasks of a streaming call never block one another for good, and come to their end.
use mathlib.Core.WellFounded.{Acc}
use mathlib.Core.Path.{subst}
use nerw_rpc.Prelude.{
  ℕ, zero, suc, ◌+◌, ◌<◌, List, [], ◌∷◌, ◌≡◌, ◌⊎◌, inl, inr, refl, ap, sym, ◌∙◌, Option, none, some,
  Bool, true, false, length, arith,
}
use nerw_rpc.Prelude.Text.{Text}
use nerw_rpc.Result.{Result}
use nerw_rpc.Error.{RpcResult}
use nerw_rpc.External.Leb128.{Leb128}
use nerw_rpc.External.Quic.{SendStream}
use nerw_rpc.Streaming.{Codecs}
use nerw_rpc.Server.Tasks.{
  Item, Program, receive, send, update, ended, Drain, draining, stopped, Call, Step, forward,
  take_request, end_requests, send_response, send_dropped, run_update, drain_response, IsOver,
  drained, cut,
}

-- A program that a program goes on with after one operation.
abbrev After : {W : Type 0} → Program W → Program W → Type 0
After next (receive k) = (x : Option Item) × (next ≡ k x)
After next (send _ k) = (x : Bool) × (next ≡ k x)
After {W} next (update _ k) = (x : W) × (next ≡ k x)
After next (ended _) = ⊥

-- The items that are still to be moved while the handler stands still.
abbrev to_move : {S W : Type 0} → Call S W → ℕ
to_move t = length t.to_pump + length t.responses

module _ {S : Type 0} (stream : SendStream S) (l : Leb128) (codecs : Codecs)
    (debug_strings : List Text → Text) {W : Type 0} where
  -- The order in which the steps of the tasks go down.
  abbrev pub Later : Call S W → Call S W → Type 0
  Later u t = Step stream l codecs debug_strings t u

  -- A step is one of the handler, or it moves an item on.
  Step-falls :
      (t u : Call S W)
      → Later u t
      → After u.handler t.handler ⊎ ((u.handler ≡ t.handler) × (to_move u < to_move t))
  Step-falls t _ (forward x rest e room) = inr (refl, omega (arith, ap length e))
  Step-falls t _ (take_request k x rest h r) = inl (rw h (some x, refl))
  Step-falls t _ (end_requests k h r p) = inl (rw h (none, refl))
  Step-falls t _ (send_response x k s h d room) = inl (rw h (true, refl))
  Step-falls t _ (send_dropped x k s h d) = inl (rw h (false, refl))
  Step-falls t _ (run_update f k h) = inl (rw h (t.app, refl))
  Step-falls t _ (drain_response x rest s d r) = inr (refl, omega (arith, ap length r))

  -- By induction on the handler, and on the items while it stands still.
  Ends : Program W → Type 0
  Ends h = (n : ℕ) (t : Call S W) → t.handler ≡ h → to_move t < n → Acc Later t

  Ends-below : (h : Program W) → ((next : Program W) → After next h → Ends next) → Ends h
  unfolding Ends
  Ends-below h below zero t e small = absurd (omega arith)
  Ends-below h below (suc n) t e small = Acc.intro t λ u step. elim (Step-falls t u step) [
    | inl after ↦ below u.handler (rw e at after) (suc (to_move u)) u refl (omega arith)
    | inr (same, falls) ↦ Ends-below h below n u (same ∙ e) (omega arith)
  ]

  every_program_Ends : (h : Program W) → Ends h
  every_program_Ends (receive k) =
      Ends-below (receive k) (λ next (x, e). subst Ends (sym e) (every_program_Ends (k x)))
  every_program_Ends (send y k) =
      Ends-below (send y k) (λ next (x, e). subst Ends (sym e) (every_program_Ends (k x)))
  every_program_Ends (update f k) =
      Ends-below (update f k) (λ next (x, e). subst Ends (sym e) (every_program_Ends (k x)))
  every_program_Ends (ended o) = Ends-below (ended o) (λ next a. absurd a)

  -- Another step, or the end.
  GoesOn : Call S W → Type 0
  GoesOn t = ((u : Call S W) × Later u t) ⊎ ((o : Result Text (RpcResult (Unit {0}))) × IsOver t o)

  receive-GoesOn :
      (t : Call S W) (k : Option Item → Program W) (requests to_pump : List Item)
      → t.handler ≡ receive k
      → t.requests ≡ requests
      → t.to_pump ≡ to_pump
      → GoesOn t
  unfolding GoesOn
  receive-GoesOn t k (x ∷ rest) to_pump h r p = inl (_, take_request k x rest h r)
  receive-GoesOn t k [] [] h r p = inl (_, end_requests k h r p)
  receive-GoesOn t k [] (x ∷ rest) h r p = inl (_, forward x rest p (rw r (omega arith)))

  send-GoesOn :
      (t : Call S W) (y : Item) (k : Bool → Program W) (drain : Drain S) (responses : List Item)
      → t.handler ≡ send y k
      → t.drain ≡ drain
      → t.responses ≡ responses
      → GoesOn t
  unfolding GoesOn
  send-GoesOn t y k (stopped s) responses h d r = inl (_, send_dropped y k s h d)
  send-GoesOn t y k (draining s) [] h d r = inl (_, send_response y k s h d (rw r (omega arith)))
  send-GoesOn t y k (draining s) (x ∷ rest) h d r = inl (_, drain_response x rest s d r)

  ended-GoesOn :
      (t : Call S W) (o : Result Text (RpcResult (Unit {0}))) (drain : Drain S)
      (responses : List Item)
      → t.handler ≡ ended o
      → t.drain ≡ drain
      → t.responses ≡ responses
      → GoesOn t
  unfolding GoesOn
  ended-GoesOn t o (stopped s) responses h d r = inr (o, cut o s h d)
  ended-GoesOn t o (draining s) [] h d r = inr (o, drained o s h d r)
  ended-GoesOn t o (draining s) (x ∷ rest) h d r = inl (_, drain_response x rest s d r)

  every_call-GoesOn : (t : Call S W) (h : Program W) → t.handler ≡ h → GoesOn t
  unfolding GoesOn
  every_call-GoesOn t (receive k) h = receive-GoesOn t k t.requests t.to_pump h refl refl
  every_call-GoesOn t (send y k) h = send-GoesOn t y k t.drain t.responses h refl refl
  every_call-GoesOn t (update f k) h = inl (_, run_update f k h)
  every_call-GoesOn t (ended o) h = ended-GoesOn t o t.drain t.responses h refl refl

  -- For every handler whose own run ends, and whatever the two channels hold: the tasks of a streaming
  -- call take finitely many steps only, in whatever order they take them, and as long as not all is
  -- over, that is until the handler's task has ended and the drain has stopped or has nothing left to
  -- take, one of them can take a step. So the bounded channels never block the tasks for good.
  pub call-ends :
      (t : Call S W)
      → Acc Later t
        × (((u : Call S W) × Later u t) ⊎ ((o : Result Text (RpcResult (Unit {0}))) × IsOver t o))
  unfolding Ends GoesOn
  call-ends t = (
    every_program_Ends t.handler (suc (to_move t)) t refl (omega arith),
    every_call-GoesOn t t.handler refl,
  )
