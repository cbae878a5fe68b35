-- ===== src/External/Executor.antt =====
-- `tokio::spawn` as a parameter, with what tokio documents of tasks and their handles.
use nerw_rpc.Prelude.{◌≡◌, ◌⊎◌, Bool, true}

-- The tasks that run one function, in state `X`: `spawn` starts one, and `abort` asks
-- that it be cancelled.
pub record Executor (X T : Type 0) : Type 0 where
  pub spawn : X → T × X
  pub abort : T → X → X

-- `running`: the tasks that may still take a step; `is_aborted`: those whose cancellation was asked
-- for. A task starts by `spawn` alone. `abort` only schedules the cancellation: the task may still run
-- when `abort` returns.
pub record ExecutorLaws {X T : Type 0} (e : Executor X T) : Type 0 where
  pub running : T → X → Bool
  pub spawn-running :
      (x : X) (t : T) → running t (e.spawn x).1 ≡ true → (t ≡ (e.spawn x).0) ⊎ (running t x ≡ true)
  pub is_aborted : T → X → Bool
  pub abort-is_aborted : (t : T) (x : X) → is_aborted t (e.abort t x) ≡ true
  pub abort-running : (t u : T) (x : X) → running u (e.abort t x) ≡ true → running u x ≡ true
