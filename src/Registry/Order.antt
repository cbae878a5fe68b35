-- ===== src/Registry/Order.antt =====
-- The order of strings, and the maximum of a list of keys.
use mathlib.Core.Path.{subst}
use mathlib.Core.Option.{some-injective}
use nerw_rpc.Prelude.{
  ap, sym, ◌↔◌, ◌≡◌, refl, ◌⊎◌, inl, inr, List, [], ◌∷◌, Bool, true, false, none, some, arith,
  Bool-cases, if◌then◌else◌,
}
use nerw_rpc.Prelude.Text.{Text, text_eq, text_leb, text_eq_refl, eq_of_text_eq}
use nerw_rpc.Registry.{filter, max_from, max_key, get, keys}

pub text_leb_refl : (s : Text) → text_leb s s ≡ true
text_leb_refl [] = refl
text_leb_refl (a ∷ s) = ground (arith, text_leb_refl s)

pub text_leb_total : (s t : Text) → text_leb s t ≡ false → text_leb t s ≡ true
text_leb_total [] t h = cc
text_leb_total (a ∷ s) [] h = refl
text_leb_total (a ∷ s) (b ∷ t) h = ground (arith, text_leb_total s t)

pub text_leb_antisym : (s t : Text) → text_leb s t ≡ true → text_leb t s ≡ true → s ≡ t
text_leb_antisym [] [] h k = refl
text_leb_antisym [] (b ∷ t) h k = cc
text_leb_antisym (a ∷ s) [] h k = cc
text_leb_antisym (a ∷ s) (b ∷ t) h k = ground (arith, text_leb_antisym s t)

pub text_leb_trans :
    (s t u : Text) → text_leb s t ≡ true → text_leb t u ≡ true → text_leb s u ≡ true
text_leb_trans [] t u h k = refl
text_leb_trans (a ∷ s) [] u h k = cc
text_leb_trans (a ∷ s) (b ∷ t) [] h k = cc
text_leb_trans (a ∷ s) (b ∷ t) (c ∷ u) h k = ground (arith, text_leb_trans s t u)

-- Membership as a choice of position.
abbrev pub Among : Text → List Text → Type 0
Among k [] = ⊥
Among k (j ∷ js) = (k ≡ j) ⊎ Among k js

-- `m` is `best` or one of `ks`, and none of these is above it.
abbrev IsMax : Text → List Text → Text → Type 0
IsMax best ks m =
    ((m ≡ best) ⊎ Among m ks)
    × (text_leb best m ≡ true)
    × ((k : Text) → Among k ks → text_leb k m ≡ true)

max_from-IsMax : (best : Text) (ks : List Text) → IsMax best ks (max_from best ks)
max_from-IsMax best [] = (inl refl, text_leb_refl best, λ k a. absurd a)
max_from-IsMax best (j ∷ js) = elim (Bool-cases (text_leb best j)) [
  | inl up ↦
      let (from, above, all) = max_from-IsMax j js in
      subst (IsMax best (j ∷ js)) (sym (ap (λ (c : Bool). max_from (if c then j else best) js) up))
        (
          inr from,
          text_leb_trans best j _ up above,
          λ k a. elim a [ inl e ↦ rw e above | inr b ↦ all k b ],
        )
  | inr down ↦
      let (from, above, all) = max_from-IsMax best js in
      subst (IsMax best (j ∷ js))
        (sym (ap (λ (c : Bool). max_from (if c then j else best) js) down))
        (
          elim from [ inl e ↦ inl e | inr a ↦ inr (inr a) ],
          above,
          λ k a. elim a [
            | inl e ↦ rw e (text_leb_trans j best _ (text_leb_total best j down) above)
            | inr b ↦ all k b
          ],
        )
]

pub max_key_lem :
    (ks : List Text) (k : Text)
    → max_key ks ≡ some k
    → Among k ks × ((j : Text) → Among j ks → text_leb j k ≡ true)
max_key_lem [] k h = cc
max_key_lem (b ∷ ks) k h =
    let (from, above, all) = max_from-IsMax b ks in
    subst (λ (m : Text). Among m (b ∷ ks) × ((j : Text) → Among j (b ∷ ks) → text_leb j m ≡ true))
      (some-injective _ _ h) (from, λ j a. elim a [ inl e ↦ rw e above | inr c ↦ all j c ])

pub max_key-none : (ks : List Text) → max_key ks ≡ none → (k : Text) → Among k ks → ⊥
max_key-none [] h k a = a
max_key-none (b ∷ ks) h k a = cc h

pub Among-filter :
    (p : Text → Bool) (ks : List Text) (k : Text)
    → Among k (filter p ks) ↔ (Among k ks × (p k ≡ true))
Among-filter p [] k = (λ a. absurd a, λ (a, _). a)
Among-filter p (j ∷ js) k = elim (Bool-cases (p j)) [
  | inl t ↦ rw t (
    (λ a. elim a [
      | inl e ↦ (inl e, rw e t)
      | inr b ↦ let (x, y) = (Among-filter p js k).0 b in (inr x, y)
    ]),
    (λ (a, q). elim a [ inl e ↦ inl e | inr b ↦ inr ((Among-filter p js k).1 (b, q)) ]),
  )
  | inr f ↦ rw f (
    (λ a. let (x, y) = (Among-filter p js k).0 a in (inr x, y)),
    (λ (a, q). elim a [ inl e ↦ cc | inr b ↦ (Among-filter p js k).1 (b, q) ]),
  )
]

module _ {V : Type 0} where
  -- The keys are those that `get` finds.
  pub get_of_Among :
      (m : List (Text × V)) (k : Text) → Among k (keys m) → (v : V) × (get k m ≡ some v)
  get_of_Among [] k a = absurd a
  get_of_Among ((j, v) ∷ m) k a = elim (Bool-cases (text_eq j k)) [
    | inl t ↦ (v, rw t refl)
    | inr f ↦ elim a [
      | inl e ↦ cc (text_eq_refl j)
      | inr b ↦ let (w, h) = get_of_Among m k b in (w, rw f h)
    ]
  ]

  pub Among-of_get : (m : List (Text × V)) (k : Text) (v : V) → get k m ≡ some v → Among k (keys m)
  Among-of_get [] k v e = cc
  Among-of_get ((j, w) ∷ m) k v e = elim (Bool-cases (text_eq j k)) [
    | inl t ↦ inl (sym (eq_of_text_eq j k t))
    | inr f ↦ inr (Among-of_get m k v (rw f at e))
  ]
