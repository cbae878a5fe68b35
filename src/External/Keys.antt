-- ===== src/External/Keys.antt =====
-- iroh's Ed25519 keys as a parameter, by their bytes, with what the scheme documents.
use nerw_rpc.Prelude.{ℕ, List, ◌≡◌, Bool, true}

pub record Keys : Type 0 where
  pub public : List ℕ → List ℕ
  pub sign : List ℕ → List ℕ → List ℕ
  pub verify : List ℕ → List ℕ → List ℕ → Bool

-- A signature verifies against the public key of the secret that made it.
pub record KeysLaws (k : Keys) : Type 0 where
  pub verify-sign :
      (secret message : List ℕ) → k.verify (k.public secret) message (k.sign secret message) ≡ true
