-- ===== src/Registry/Versions.antt =====
-- src/method.rs: which of two versions a name without a version leads to.
use nerw_rpc.Prelude.{
  ◌⊎◌, ℕ, ◌<◌, ◌≡◌, refl, ap, sym, ◌∙◌, inl, inr, [], ◌∷◌, ◌++◌, false, none, some, arith,
  Bool-cases, append_assoc,
}
use nerw_rpc.Prelude.Text.{Text, text_eq, text_eq_refl, eq_of_text_eq, text_leb}
use nerw_rpc.Result.{ok}
use nerw_rpc.Method.{MethodName, to_canonical}
use nerw_rpc.Method.Grammar.{IsWellFormed}
use nerw_rpc.Registry.{unary, MethodRegistry, HandlerEntry, get, insert, new, register, lookup}
use nerw_rpc.Registry.Entries.{get-insert}
use nerw_rpc.Registry.Order.{text_leb_refl}
use nerw_rpc.Registry.Invariant.{IsRegistry, IsRegistry-new, lookup-register}
use nerw_rpc.Registry.Resolve.{at, at-eq}
use nerw_rpc.Registry.Crossing.{register-ok, lookup_entry-some}

-- With two keys, something is found at one of them only.
get_pair :
    {V : Type 0} (k i j : Text) (v u w : V)
    → get j (insert i u (insert k v [])) ≡ some w
    → (j ≡ i) ⊎ (j ≡ k)
get_pair k i j v u w h = elim (Bool-cases (text_eq i j)) [
  | inl t ↦ inl (sym (eq_of_text_eq i j t))
  | inr f ↦
      let single : get j ((k, v) ∷ []) ≡ some w =
        sym (get-insert i j u ((k, v) ∷ []) ∙ rw f refl) ∙ h in
      elim (Bool-cases (text_eq k j)) [
        | inl t ↦ inr (sym (eq_of_text_eq k j t))
        | inr g ↦ cc (rw g at single)
      ]
]

text_leb-append : (p s t : Text) → text_leb (p ++ s) (p ++ t) ≡ text_leb s t
text_leb-append [] s t = refl
text_leb-append (a ∷ p) s t = ground (arith, text_leb-append p s t)

text_leb-append_cons : (v : Text) (c : ℕ) (w : Text) → text_leb (v ++ (c ∷ w)) v ≡ false
text_leb-append_cons [] c w = refl
text_leb-append_cons (a ∷ v) c w = ground (arith, text_leb-append_cons v c w)

-- `.` comes before `/`, so a version with a further component makes a smaller key.
at-longer : (n : MethodName) (v w : Text) → text_leb (at n v) (at n (v ++ (b'.' ∷ w))) ≡ false
at-longer n v w =
    rw (at-eq n v, at-eq n (v ++ (b'.' ∷ w)))
      (rw text_leb-append (rw (append_assoc v) (rw text_leb-append refl)))

-- A greater byte makes a greater key, whatever follows.
at-greater_byte :
    (n : MethodName) (p x y : Text) (a b : ℕ)
    → a < b
    → text_leb (at n (p ++ (b ∷ x))) (at n (p ++ (a ∷ y))) ≡ false
at-greater_byte n p x y a b less =
    rw (at-eq n (p ++ (b ∷ x)), at-eq n (p ++ (a ∷ y)))
      (rw text_leb-append (
        rw (append_assoc p (b ∷ x))
          (rw (append_assoc p (a ∷ y)) (rw text_leb-append (ground arith)))))

text_eq_of_less : (s t : Text) → text_leb s t ≡ false → text_eq t s ≡ false
text_eq_of_less s t less = elim (Bool-cases (text_eq t s)) [
  | inl e ↦ cc (ap (text_leb s) (eq_of_text_eq t s e), less, text_leb_refl s)
  | inr f ↦ f
]

get_pair_first :
    {V : Type 0} (k i : Text) (v u : V)
    → text_eq i k ≡ false
    → get k (insert i u (insert k v [])) ≡ some v
get_pair_first k i v u f = get-insert i k u ((k, v) ∷ []) ∙ rw f (rw (text_eq_refl k) refl)

swap : {A B : Type 0} → A ⊎ B → B ⊎ A
swap (inl a) = inr a
swap (inr b) = inl b

module _ {U S : Type 0} (n : MethodName) (good : IsWellFormed n)
    (no_version : n.version ≡ none) where
  -- Of two versions of one method, a name without a version leads to that of the greater key.
  lookup_entry-greater :
      (v w : Text) (h : U) (r : MethodRegistry U S)
      → IsRegistry r
      → text_leb (at n v) (at n w) ≡ false
      → get (at n v) r.handlers ≡ some (unary h)
      → ((u : Text) (d : HandlerEntry U S)
          → get (at n u) r.handlers ≡ some d
          → (at n u ≡ at n v) ⊎ (at n u ≡ at n w))
      → lookup (to_canonical n) r ≡ some h
  unfolding lookup
  lookup_entry-greater v w h r valid less got only =
      let (d, u, found, got', above) =
        lookup_entry-some r n v (unary h) valid good no_version got in
      let is_h : d ≡ unary h = elim (only u d got') [
        | inl s ↦ cc (ap (λ x. get x r.handlers) s, got', got)
        | inr s ↦ cc (ap (text_leb (at n v)) s, above, less)
      ] in
      rw (found, is_h, lookup) refl

  -- The same, in whichever order the two are registered.
  lookup_prefers_greater :
      (v w : Text) (h k : U) (r r' s s' : MethodRegistry U S)
      → text_leb (at n v) (at n w) ≡ false
      → register (at n v) h new ≡ ok r
      → register (at n w) k r ≡ ok r'
      → register (at n w) k new ≡ ok s
      → register (at n v) h s ≡ ok s'
      → (lookup (to_canonical n) r' ≡ some h) × (lookup (to_canonical n) s' ≡ some h)
  lookup_prefers_greater v w h k r r' s s' less e e' f f' =
      let valid = (lookup-register (at n v) h new r IsRegistry-new e).0 in
      let valid_r = (lookup-register (at n w) k r r' valid e').0 in
      let valid' = (lookup-register (at n w) k new s IsRegistry-new f).0 in
      let valid_s = (lookup-register (at n v) h s s' valid' f').0 in
      let pair_r : r'.handlers ≡ insert (at n w) (unary k) (insert (at n v) (unary h) []) =
        rw (register-ok (at n w) k r r' e', register-ok (at n v) h new r e) refl in
      let pair_s : s'.handlers ≡ insert (at n v) (unary h) (insert (at n w) (unary k) []) =
        rw (register-ok (at n v) h s s' f', register-ok (at n w) k new s f) refl in
      (
        lookup_entry-greater v w h r' valid_r less
            (ap (get (at n v)) pair_r
              ∙ get_pair_first (at n v) (at n w) (unary h) (unary k)
                  (text_eq_of_less (at n v) (at n w) less))
            (λ u d got.
              swap (get_pair (at n v) (at n w) (at n u) (unary h) (unary k) d (rw pair_r at got))),
        lookup_entry-greater v w h s' valid_s less
            (ap (get (at n v)) pair_s
              ∙ get-insert (at n v) (at n v) (unary h) ((at n w, unary k) ∷ [])
              ∙ rw (text_eq_refl (at n v)) refl)
            (λ u d got.
              get_pair (at n w) (at n v) (at n u) (unary k) (unary h) d (rw pair_s at got)),
      )

  -- The comparison is of whole keys, not of versions: of a version `v` and a version `v.w` that
  -- extends it, the only two that are registered, in whichever order, a name without a version leads
  -- to `v`, although `v.w` is the greater text.
  pub lookup_prefers_shorter :
      (v w : Text) (h k : U) (r r' s s' : MethodRegistry U S)
      → register (at n v) h new ≡ ok r
      → register (at n (v ++ (b'.' ∷ w))) k r ≡ ok r'
      → register (at n (v ++ (b'.' ∷ w))) k new ≡ ok s
      → register (at n v) h s ≡ ok s'
      → (lookup (to_canonical n) r' ≡ some h)
        × (lookup (to_canonical n) s' ≡ some h)
        × (text_leb (v ++ (b'.' ∷ w)) v ≡ false)
  lookup_prefers_shorter v w h k r r' s s' e e' f f' =
      let (one, other) =
        lookup_prefers_greater v (v ++ (b'.' ∷ w)) h k r r' s s' (at-longer n v w) e e' f f' in
      (one, other, text_leb-append_cons v b'.' w)

  -- Versions are not compared as numbers. Of two versions that agree up to a byte, the only two that
  -- are registered, in whichever order, a name without a version leads to that with the greater byte,
  -- however many digits follow: 9 wins over 10, and 1.9.0 over 1.10.0.
  pub lookup_prefers_greater_byte :
      (p x y : Text) (a b : ℕ) (h k : U) (r r' s s' : MethodRegistry U S)
      → a < b
      → register (at n (p ++ (b ∷ x))) h new ≡ ok r
      → register (at n (p ++ (a ∷ y))) k r ≡ ok r'
      → register (at n (p ++ (a ∷ y))) k new ≡ ok s
      → register (at n (p ++ (b ∷ x))) h s ≡ ok s'
      → (lookup (to_canonical n) r' ≡ some h) × (lookup (to_canonical n) s' ≡ some h)
  lookup_prefers_greater_byte p x y a b h k r r' s s' less e e' f f' =
      lookup_prefers_greater (p ++ (b ∷ x)) (p ++ (a ∷ y)) h k r r' s s'
        (at-greater_byte n p x y a b less) e e' f f'
