-- ===== src/Registry/Crossing.antt =====
-- Where the resolution of a name without a version departs from its documentation.
use nerw_rpc.Prelude.{
  ◌≡◌, refl, ◌≢◌, inl, inr, [], ◌∷◌, ◌++◌, true, none, some, Bool-cases, Option-cases, append_assoc,
}
use nerw_rpc.Prelude.Text.{Text, text_eq, text_eq_refl, text_leb}
use nerw_rpc.Prelude.Split.{Avoids}
use nerw_rpc.Result.{ok}
use nerw_rpc.Method.{MethodName, parse, to_canonical}
use nerw_rpc.Method.Grammar.{IsWellFormed, parse_iff}
use nerw_rpc.Registry.{
  HandlerEntry, unary, MethodRegistry, get, insert, new, register, lookup_entry, lookup,
}
use nerw_rpc.Registry.Invariant.{IsRegistry, IsRegistry-new, lookup-register, insert_entry-ok}
use nerw_rpc.Registry.Resolve.{at, lookup_entry-unpinned}

at_shift :
    (n : MethodName) (v x : Text)
    → at n (v ++ (b'/' ∷ x))
      ≡ to_canonical (record {
        pkg = n.pkg;
        version = some v;
        interface = x;
        method = n.interface ++ (b'/' ∷ n.method);
      })
unfolding to_canonical
at_shift n v x = simp append_assoc

pub register-ok :
    {U S : Type 0} (name : Text) (h : U) (r r' : MethodRegistry U S)
    → register name h r ≡ ok r'
    → r' ≡ record { handlers = insert name (unary h) r.handlers }
unfolding register
register-ok name h r r' e = (insert_entry-ok name (unary h) r r' e).1

append-ne-nil : (s t : Text) → s ≢ [] → s ++ t ≢ []
append-ne-nil [] t h = absurd (h refl)
append-ne-nil (a ∷ s) t h = λ e. cc

pub get_single : {V : Type 0} (k j : Text) (v w : V) → get j ((k, v) ∷ []) ≡ some w → w ≡ v
get_single k j v w h = elim (Bool-cases (text_eq k j)) [
  | inl t ↦ cc (rw t at h)
  | inr f ↦ cc (rw f at h)
]

module _ {U S : Type 0} where
  -- In every registry where some name at `n` is taken, `n` without a version leads to something.
  pub lookup_entry-some :
      (r : MethodRegistry U S) (n : MethodName) (v : Text) (d : HandlerEntry U S)
      → IsRegistry r
      → IsWellFormed n
      → n.version ≡ none
      → get (at n v) r.handlers ≡ some d
      → (e : HandlerEntry U S) × (u : Text) × (lookup_entry (to_canonical n) r ≡ some e)
        × (get (at n u) r.handlers ≡ some e)
        × (text_leb (at n v) (at n u) ≡ true)
  lookup_entry-some r n v d valid w no_version got =
      let spec =
        lookup_entry-unpinned r valid (to_canonical n) n ((parse_iff _ n).1 (w, refl)) no_version in
      elim (Option-cases (lookup_entry (to_canonical n) r)) [
        | inl missing ↦ cc (spec.1 missing v, got)
        | inr (e, found) ↦
            let (u, got', above) = spec.0 e found in (e, u, found, got', above v d got)
      ]

  -- A handler whose method name has a slash is reached by a name that it was not registered under:
  -- registered as method `i/m` of interface `x`, it answers to the name of method `m` of interface
  -- `i` without a version, though nothing of that interface and method is registered.
  pub lookup_crosses_interfaces :
      (n : MethodName) (v x : Text) (h : U) (r : MethodRegistry U S)
      → IsWellFormed n
      → n.version ≡ none
      → (v ≢ []) × Avoids b'/' v
      → (x ≢ []) × Avoids b'/' x
      → register (at n (v ++ (b'/' ∷ x))) h new ≡ ok r
      → (lookup (to_canonical n) r ≡ some h)
        × (parse (at n (v ++ (b'/' ∷ x)))
            ≡ some (record {
              pkg = n.pkg;
              version = some v;
              interface = x;
              method = n.interface ++ (b'/' ∷ n.method);
            }))
  unfolding lookup
  lookup_crosses_interfaces n v x h r w no_version good_v good_x e =
      let k = at n (v ++ (b'/' ∷ x)) in
      let valid = (lookup-register k h new r IsRegistry-new e).0 in
      let same = register-ok k h new r e in
      let got : get k r.handlers ≡ some (unary h) = rw (same, text_eq_refl k) refl in
      let (d, u, found, got', _) = lookup_entry-some r n _ (unary h) valid w no_version got in
      let is_h : d ≡ unary h = get_single k (at n u) (unary h) d (rw same at got') in
      (
        rw (found, is_h, lookup) refl,
        (parse_iff k _).1 (
          record {
            pkg_filled = w.pkg_filled;
            pkg_no_at = w.pkg_no_at;
            pkg_no_slash = w.pkg_no_slash;
            version_good = good_v;
            interface_filled = good_x.0;
            interface_no_slash = good_x.1;
            method_filled = append-ne-nil n.interface (b'/' ∷ n.method) w.interface_filled;
          },
          at_shift n v x,
        ),
      )
