-- ===== src/External/Channel.antt =====
-- `tokio::sync::mpsc` as a parameter. Messages arrive in the order in which they were sent.
use nerw_rpc.Prelude.{List, [], ◌∷◌, ◌++◌, Bool, true}

-- A sender in state `C`; `send` fails if the receiver was dropped.
pub record Sender (A C : Type 0) : Type 0 where
  pub send : A → C → Bool × C

-- The channel whose receiver stays and keeps what it received.
abbrev pub collect : {A : Type 0} → Sender A (List A)
collect = record { send = λ a items. (true, items ++ (a ∷ [])) }
