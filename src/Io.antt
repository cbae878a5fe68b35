-- ===== src/Io.antt =====
-- Fallible operations on a state, such as reads of a stream.
use nerw_rpc.Prelude.{◌≡◌, refl, ◌⊎◌, inl, inr}
use nerw_rpc.Result.{Result, ok, err, map_err}
use nerw_rpc.Error.{RpcError, RpcResult}

abbrev pub Io : Type 0 → Type 0 → Type 0
Io S A = S → RpcResult A × S

module _ {S A B : Type 0} where
  abbrev pub next : RpcResult A × S → (A → Io S B) → RpcResult B × S
  next (ok a, s) f = f a s
  next (err e, s) f = (err e, s)

  infixl 5 ◌>>=◌
  abbrev pub ◌>>=◌ : Io S A → (A → Io S B) → Io S B
  (m >>= f) s = next (m s) f

-- A computation that does not touch the state.
abbrev pub lift : {S A : Type 0} → RpcResult A → Io S A
lift r s = (r, s)

-- A call of a crate whose error is mapped.
abbrev pub or_else : {S E A : Type 0} → (S → Result E A × S) → (E → RpcError) → Io S A
or_else m f s = (map_err f (m s).0, (m s).1)

-- A call ended with a value or with an error, and in some state.
pub Io-cases {ℓ κ μ} :
    {E : Type ℓ} {A : Type κ} {S : Type μ} (x : Result E A × S)
    → ((a : A) × (s : S) × (x ≡ (ok a, s))) ⊎ ((e : E) × (s : S) × (x ≡ (err e, s)))
Io-cases (ok a, s) = inl (a, s, refl)
Io-cases (err e, s) = inr (e, s, refl)
