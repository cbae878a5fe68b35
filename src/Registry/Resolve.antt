-- ===== src/Registry/Resolve.antt =====
-- What a name without a version leads to.
use mathlib.Core.Option.{some-injective}
use mathlib.Core.Bool.{and-eq-true_iff}
use nerw_rpc.Prelude.{
  All-append, ℕ, ◌≡◌, refl, ap, sym, ◌∙◌, inl, inr, List, [], ◌∷◌, ◌++◌, true, none, some, arith,
  Bool-cases, Option-cases, append_assoc,
}
use nerw_rpc.Prelude.Text.{
  Text, text_eq, text_eq_refl, eq_of_text_eq, text_leb, starts_with, ends_with,
}
use nerw_rpc.Prelude.Split.{Avoids}
use nerw_rpc.Method.{MethodName, parse, to_canonical}
use nerw_rpc.Method.Grammar.{parse_iff, >>=-eq-some}
use nerw_rpc.Registry.{
  HandlerEntry, HandlerMap, MethodRegistry, get, keys, filter, max_key, prefix, suffix, matches,
  resolve, lookup_entry,
}
use nerw_rpc.Registry.Order.{
  Among, max_key_lem, max_key-none, Among-filter, get_of_Among, Among-of_get,
}
use nerw_rpc.Registry.Invariant.{IsPinned, AllPinned, IsRegistry}

-- The name at a version.
abbrev pub at : MethodName → Text → Text
at n v = to_canonical (record n { version = some v })

starts_with-append : (p t : Text) → starts_with p (p ++ t) ≡ true
starts_with-append [] t = refl
starts_with-append (a ∷ p) t = ground (arith, starts_with-append p t)

starts_with_sound : (p s : Text) → starts_with p s ≡ true → (t : Text) × (s ≡ p ++ t)
starts_with_sound [] s h = (s, refl)
starts_with_sound (a ∷ p) [] h = cc
starts_with_sound (a ∷ p) (b ∷ s) h =
    let (t, e) = starts_with_sound p s (ground arith) in (t, ground arith)

ends_with-append : (u q : Text) → ends_with q (u ++ q) ≡ true
ends_with-append [] [] = refl
ends_with-append [] (b ∷ q) = ground (arith, text_eq_refl q)
ends_with-append (a ∷ u) q = ground (arith, ends_with-append u q)

ends_with_sound : (q s : Text) → ends_with q s ≡ true → (u : Text) × (s ≡ u ++ q)
ends_with_sound q [] h = ([], sym (eq_of_text_eq q [] h))
ends_with_sound q (b ∷ s) h = elim (Bool-cases (text_eq q (b ∷ s))) [
  | inl t ↦ ([], sym (eq_of_text_eq q (b ∷ s) t))
  | inr f ↦
      let (u, e) = ends_with_sound q s (rw (f, ends_with) at h) in
      (b ∷ u, ap (λ (l : Text). b ∷ l) e)
]

-- A suffix that begins with `c` does not reach into a prefix without `c`.
ends_with_past :
    (c : ℕ) (p q t : Text)
    → Avoids c p
    → ends_with (c ∷ q) (p ++ t) ≡ true
    → ends_with (c ∷ q) t ≡ true
ends_with_past c [] q t h e = e
ends_with_past c (b ∷ p) q t (h, hs) e = ends_with_past c p q t hs (ground arith)

pub at-eq : (n : MethodName) (v : Text) → at n v ≡ prefix n ++ (v ++ suffix n)
unfolding to_canonical
at-eq n v = simp append_assoc

matches-at : (n : MethodName) (v : Text) → matches n (at n v) ≡ true
matches-at n v = rw (at-eq n v) (
    rw (starts_with-append (prefix n) (v ++ suffix n), ← append_assoc (prefix n) v (suffix n))
      (ends_with-append (prefix n ++ v) (suffix n)))

matches_sound :
    (n : MethodName) (k : Text) → Avoids b'/' n.pkg → matches n k ≡ true → (v : Text) × (k ≡ at n v)
matches_sound n k no_slash h =
    let (starts, ends) = (and-eq-true_iff _ _).0 h in
    let (t, e) = starts_with_sound (prefix n) k starts in
    let ends' : ends_with (suffix n) (prefix n ++ t) ≡ true = rw e at ends in
    let (v, e') = ends_with_sound (suffix n) t (
      ends_with_past b'/' (prefix n) _ t
        (All-append _ n.pkg (b'@' ∷ []) no_slash (ground arith, tt)) ends') in
    (v, e ∙ rw e' (sym (at-eq n v)))

module _ {U S : Type 0} where
  -- `k` is a key, and no other key is the name at a version and above `k`.
  resolve-some :
      (n : MethodName) (m : HandlerMap U S) (e : HandlerEntry U S)
      → Avoids b'/' n.pkg
      → resolve n m ≡ some e
      → (v : Text) × (get (at n v) m ≡ some e)
        × ((w : Text) (d : HandlerEntry U S)
            → get (at n w) m ≡ some d
            → text_leb (at n w) (at n v) ≡ true)
  unfolding resolve
  resolve-some n m e no_slash h =
      let (k, is_max, found) = >>=-eq-some (max_key (filter (matches n) (keys m))) _ h in
      let (among, above) = max_key_lem (filter (matches n) (keys m)) k is_max in
      let (_, matched) = (Among-filter (matches n) (keys m) k).0 among in
      let (v, is_at) = matches_sound n k no_slash matched in
      (
        v,
        rw (← is_at) found,
        λ w d got. rw (← is_at) (
            above (at n w) (
              (Among-filter (matches n) (keys m) (at n w)).1
                (Among-of_get m (at n w) d got, matches-at n w))),
      )

  resolve-none :
      (n : MethodName) (m : HandlerMap U S)
      → resolve n m ≡ none
      → (w : Text) → get (at n w) m ≡ none
  unfolding resolve
  resolve-none n m h w = elim (Option-cases (get (at n w) m)) [
    | inl missing ↦ missing
    | inr (d, got) ↦ elim (Option-cases (max_key (filter (matches n) (keys m)))) [
      | inl empty ↦ absurd (
          max_key-none (filter (matches n) (keys m)) empty (at n w) (
            (Among-filter (matches n) (keys m) (at n w)).1
              (Among-of_get m (at n w) d got, matches-at n w)))
      | inr (k, is_max) ↦
          let (among, _) = max_key_lem (filter (matches n) (keys m)) k is_max in
          let (is_key, _) = (Among-filter (matches n) (keys m) k).0 among in
          let (v, got') = get_of_Among m k is_key in cc (rw (is_max, got', resolve) at h)
    ]
  ]

pub IsPinned-of_Among : (ks : List Text) (k : Text) → AllPinned ks → Among k ks → IsPinned k
IsPinned-of_Among [] k p a = absurd a
IsPinned-of_Among (j ∷ js) k (p, ps) a = elim a [
  | inl e ↦ rw e p
  | inr b ↦ IsPinned-of_Among js k ps b
]

module _ {U S : Type 0} (r : MethodRegistry U S) (valid : IsRegistry r) where
  -- A name without a version is no key.
  unpinned_no_key :
      (name : Text) (n : MethodName)
      → parse name ≡ some n
      → n.version ≡ none
      → get name r.handlers ≡ none
  unpinned_no_key name n e no_version = elim (Option-cases (get name r.handlers)) [
    | inl missing ↦ missing
    | inr (h, found) ↦
        let (m, v, e', has) =
          IsPinned-of_Among (keys r.handlers) name valid.pinned
            (Among-of_get r.handlers name h found) in
        let same : n ≡ m = some-injective _ _ (sym e ∙ e') in
        cc (ap (λ (x : MethodName). x.version) same, no_version, has)
  ]

  lookup_entry-eq-resolve :
      (name : Text) (n : MethodName)
      → parse name ≡ some n
      → n.version ≡ none
      → lookup_entry name r ≡ resolve n r.handlers
  unfolding lookup_entry
  lookup_entry-eq-resolve name n e no_version =
      rw (unpinned_no_key name n e no_version, e, no_version, lookup_entry) refl

  -- A name without a version leads to the entry of the greatest key, in the order of strings, among
  -- the registered names that have the text of its package, some text behind `@`, and the text of
  -- its interface and method at the end. It leads to nothing only if there is no such key.
  pub lookup_entry-unpinned :
      (name : Text) (n : MethodName)
      → parse name ≡ some n
      → n.version ≡ none
      → ((e : HandlerEntry U S)
          → lookup_entry name r ≡ some e
          → (v : Text) × (get (at n v) r.handlers ≡ some e)
            × ((w : Text) (d : HandlerEntry U S)
                → get (at n w) r.handlers ≡ some d
                → text_leb (at n w) (at n v) ≡ true))
        × (lookup_entry name r ≡ none → (w : Text) → get (at n w) r.handlers ≡ none)
  lookup_entry-unpinned name n e no_version =
      let same = lookup_entry-eq-resolve name n e no_version in
      let (w, _) = (parse_iff name n).0 e in
      (
        (λ d found. resolve-some n r.handlers d w.pkg_no_slash (sym same ∙ found)),
        (λ missing. resolve-none n r.handlers (sym same ∙ missing)),
      )
