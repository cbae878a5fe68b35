-- ===== src/Result.antt =====
-- Rust's `Result` with `?`, as a monad.
use nerw_rpc.Prelude.{◌≡◌, refl, ◌⊎◌, inl, inr}

pub data Result {ℓ κ} (E : Type ℓ) (A : Type κ) : Type (ℓ ⊔ κ) where
  ok : A → Result E A
  err : E → Result E A

-- Every result is a success or an error.
pub Result-cases {ℓ κ} :
    {E : Type ℓ} {A : Type κ} (r : Result E A) → ((a : A) × (r ≡ ok a)) ⊎ ((e : E) × (r ≡ err e))
Result-cases (err e) = inr (e, refl)
Result-cases (ok a) = inl (a, refl)

-- `Result::map_err`, and what is known once a call succeeded whose error was mapped.
module _ {ℓ κ μ} {E : Type ℓ} {F : Type κ} {A : Type μ} (f : E → F) where
  abbrev pub map_err : Result E A → Result F A
  map_err (err e) = err (f e)
  map_err (ok a) = ok a

  pub map_err-eq-ok : (r : Result E A) {a : A} → map_err r ≡ ok a → r ≡ ok a
  map_err-eq-ok (err e) h = cc
  map_err-eq-ok (ok b) h = cc

-- The operator `?`, and what is known once a function that used it succeeded.
module _ {ℓ κ μ} {E : Type ℓ} {A : Type κ} {B : Type μ} where
  infixl 5 ◌>>=◌
  abbrev pub ◌>>=◌ : Result E A → (A → Result E B) → Result E B
  (err e) >>= k = err e
  (ok a) >>= k = k a

  pub >>=-eq-ok :
      (r : Result E A) (k : A → Result E B) {b : B}
      → r >>= k ≡ ok b
      → (a : A) × (r ≡ ok a) × (k a ≡ ok b)
  >>=-eq-ok (err e) k h = cc
  >>=-eq-ok (ok a) k h = (a, refl, h)
