-- ===== src/Registry/Entries.antt =====
-- What `insert` does to the entries of a map.
use mathlib.Core.Path.{subst}
use nerw_rpc.Prelude.{
  ◌≡◌, refl, sym, ◌+◌, ◌⊎◌, inl, inr, List, [], ◌∷◌, true, false, some, arith, Bool-cases,
  if◌then◌else◌, length,
}
use nerw_rpc.Prelude.Text.{Text, text_eq, text_eq_refl, eq_of_text_eq, text_eq_iff}
use nerw_rpc.Registry.{get, insert, keys, is_some}
use nerw_rpc.Registry.Order.{Among}

abbrev pub Distinct : List Text → Type 0
Distinct [] = Unit
Distinct (k ∷ ks) = (¬ Among k ks) × Distinct ks

module _ {V : Type 0} where
  pub get-insert :
      (k j : Text) (v : V) (m : List (Text × V))
      → get j (insert k v m) ≡ (if text_eq k j then some v else get j m)
  get-insert k j v [] = refl
  get-insert k j v ((i, w) ∷ m) =
      ground (arith, text_eq_iff k j, text_eq_iff i k, text_eq_iff i j, get-insert k j v m)

  insert_hit :
      (k i : Text) (v w : V) (m : List (Text × V))
      → text_eq i k ≡ true
      → insert k v ((i, w) ∷ m) ≡ (k, v) ∷ m
  insert_hit k i v w m t = rw t refl

  insert_miss :
      (k i : Text) (v w : V) (m : List (Text × V))
      → text_eq i k ≡ false
      → insert k v ((i, w) ∷ m) ≡ (i, w) ∷ insert k v m
  insert_miss k i v w m f = rw f refl

  Among-keys-insert :
      (k j : Text) (v : V) (m : List (Text × V))
      → Among j (keys (insert k v m))
      → (j ≡ k) ⊎ Among j (keys m)
  Among-keys-insert k j v [] a = a
  Among-keys-insert k j v ((i, w) ∷ m) a = elim (Bool-cases (text_eq i k)) [
    | inl t ↦ elim (subst (λ (l : List (Text × V)). Among j (keys l)) (insert_hit k i v w m t) a) [
      | inl e ↦ inl e
      | inr b ↦ inr (inr b)
    ]
    | inr f ↦ elim (subst (λ (l : List (Text × V)). Among j (keys l)) (insert_miss k i v w m f) a) [
      | inl e ↦ inr (inl e)
      | inr b ↦ elim (Among-keys-insert k j v m b) [ inl e ↦ inl e | inr c ↦ inr (inr c) ]
    ]
  ]

  pub Distinct-insert :
      (k : Text) (v : V) (m : List (Text × V)) → Distinct (keys m) → Distinct (keys (insert k v m))
  Distinct-insert k v [] d = (λ a. a, tt)
  Distinct-insert k v ((i, w) ∷ m) (d, ds) = elim (Bool-cases (text_eq i k)) [
    | inl t ↦
        subst (λ (l : List (Text × V)). Distinct (keys l)) (sym (insert_hit k i v w m t))
          (rw (← eq_of_text_eq i k t) d, ds)
    | inr f ↦
        subst (λ (l : List (Text × V)). Distinct (keys l)) (sym (insert_miss k i v w m f))
          (
            λ a. elim (Among-keys-insert k i v m a) [
              | inl e ↦ cc (e, text_eq_refl k, f)
              | inr b ↦ d b
            ],
            Distinct-insert k v m ds,
          )
  ]

  pub length-insert :
      (k : Text) (v : V) (m : List (Text × V))
      → length (insert k v m) ≡ (if is_some (get k m) then length m else length m + 1)
  length-insert k v [] = omega arith
  length-insert k v ((i, w) ∷ m) = ground (arith, length-insert k v m)
