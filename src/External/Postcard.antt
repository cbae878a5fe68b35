-- ===== src/External/Postcard.antt =====
-- The `postcard` crate at one type, as a parameter, with what it documents.
use nerw_rpc.Prelude.{ℕ, List, ◌++◌, ◌≡◌}
use nerw_rpc.Prelude.Text.{Text}
use nerw_rpc.Result.{Result, ok}

-- `to_allocvec` (or `to_stdvec`) and `from_bytes`, which ignores what follows the value. An error
-- is its `Display` text.
pub record Postcard (A : Type 0) : Type 0 where
  pub to_allocvec : A → Result Text (List ℕ)
  pub from_bytes : List ℕ → Result Text A

-- Decoding undoes encoding, whatever follows.
pub record PostcardLaws {A : Type 0} (p : Postcard A) : Type 0 where
  pub from-to :
      (a : A) (bytes rest : List ℕ)
      → p.to_allocvec a ≡ ok bytes
      → p.from_bytes (bytes ++ rest) ≡ ok a

-- `take_from_bytes` returns what follows the value as well.
pub record PostcardTake (A : Type 0) : Type 0 where
  pub to_allocvec : A → Result Text (List ℕ)
  pub take_from_bytes : List ℕ → Result Text (A × List ℕ)

pub record PostcardTakeLaws {A : Type 0} (p : PostcardTake A) : Type 0 where
  pub take-to :
      (a : A) (bytes rest : List ℕ)
      → p.to_allocvec a ≡ ok bytes
      → p.take_from_bytes (bytes ++ rest) ≡ ok (a, rest)
