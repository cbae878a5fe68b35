-- ===== src/Registry/Names.antt =====
-- The list that `schema_get` publishes.
use mathlib.Core.Path.{subst}
use mathlib.Core.List.{Perm}
use mathlib.Core.List.Perm
use nerw_rpc.Prelude.{◌≡◌, refl, sym, inl, inr, List, [], ◌∷◌, true, false, Bool-cases}
use nerw_rpc.Prelude.Text.{Text, text_leb}
use nerw_rpc.Registry.{MethodRegistry, keys, insert_sorted, sort, method_names}
use nerw_rpc.Registry.Order.{text_leb_total, text_leb_trans}

-- No name is above a later one.
abbrev pub Below : Text → List Text → Type 0
Below k [] = Unit
Below k (j ∷ js) = (text_leb k j ≡ true) × Below k js

abbrev pub IsSorted : List Text → Type 0
IsSorted [] = Unit
IsSorted (k ∷ ks) = Below k ks × IsSorted ks

sorted_here :
    (k j : Text) (ks : List Text) → text_leb k j ≡ true → insert_sorted k (j ∷ ks) ≡ k ∷ j ∷ ks
sorted_here k j ks t = rw t refl

sorted_later :
    (k j : Text) (ks : List Text)
    → text_leb k j ≡ false
    → insert_sorted k (j ∷ ks) ≡ j ∷ insert_sorted k ks
sorted_later k j ks f = rw f refl

Below-trans : (k j : Text) (ks : List Text) → text_leb k j ≡ true → Below j ks → Below k ks
Below-trans k j [] h b = tt
Below-trans k j (i ∷ ks) h (b, bs) = (text_leb_trans k j i h b, Below-trans k j ks h bs)

Below-insert_sorted :
    (k j : Text) (ks : List Text) → text_leb k j ≡ true → Below k ks → Below k (insert_sorted j ks)
Below-insert_sorted k j [] h b = (h, tt)
Below-insert_sorted k j (i ∷ ks) h (b, bs) = elim (Bool-cases (text_leb j i)) [
  | inl t ↦ subst (Below k) (sym (sorted_here j i ks t)) (h, (b, bs))
  | inr f ↦ subst (Below k) (sym (sorted_later j i ks f)) (b, Below-insert_sorted k j ks h bs)
]

insert_sorted-IsSorted : (k : Text) (ks : List Text) → IsSorted ks → IsSorted (insert_sorted k ks)
insert_sorted-IsSorted k [] s = (tt, tt)
insert_sorted-IsSorted k (j ∷ ks) (b, s) = elim (Bool-cases (text_leb k j)) [
  | inl t ↦ subst IsSorted (sym (sorted_here k j ks t)) ((t, Below-trans k j ks t b), (b, s))
  | inr f ↦
      subst IsSorted (sym (sorted_later k j ks f))
        (Below-insert_sorted j k ks (text_leb_total k j f) b, insert_sorted-IsSorted k ks s)
]

sort-IsSorted : (ks : List Text) → IsSorted (sort ks)
sort-IsSorted [] = tt
sort-IsSorted (k ∷ ks) = insert_sorted-IsSorted k (sort ks) (sort-IsSorted ks)

insert_sorted-perm : (k : Text) (ks : List Text) → Perm (insert_sorted k ks) (k ∷ ks)
insert_sorted-perm k [] = Perm.refl (k ∷ [])
insert_sorted-perm k (j ∷ ks) = elim (Bool-cases (text_leb k j)) [
  | inl t ↦ subst (λ l. Perm l (k ∷ j ∷ ks)) (sym (sorted_here k j ks t)) (Perm.refl _)
  | inr f ↦
      subst (λ l. Perm l (k ∷ j ∷ ks)) (sym (sorted_later k j ks f))
        (Perm.trans (Perm.cons j (insert_sorted-perm k ks)) (Perm.swap k j ks))
]

sort-perm : (ks : List Text) → Perm (sort ks) ks
sort-perm [] = Perm.refl []
sort-perm (k ∷ ks) = Perm.trans (insert_sorted-perm k (sort ks)) (Perm.cons k (sort-perm ks))

-- `method_names` is sorted in the order of strings and is a permutation of the registered names.
pub method_names_lem :
    {U S : Type 0} (r : MethodRegistry U S)
    → IsSorted (method_names r) × Perm (method_names r) (keys r.handlers)
unfolding method_names
method_names_lem r = (sort-IsSorted (keys r.handlers), sort-perm (keys r.handlers))
