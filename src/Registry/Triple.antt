-- ===== src/Registry/Triple.antt =====
-- When a name without a version leads to the same package, interface and method, and when not.
use mathlib.Core.Option.{some-injective}
use nerw_rpc.Prelude.{
  ℕ, All-right, All-append, ◌≡◌, refl, ap, sym, ◌∙◌, ◌≢◌, inl, inr, [], ◌∷◌, ◌++◌, none, some,
  arith, Option-cases, append_assoc,
}
use nerw_rpc.Prelude.Text.{Text}
use nerw_rpc.Prelude.Split.{Avoids, split_once, split_once-append, split_once-none, split_once-some}
use nerw_rpc.Method.{MethodName, parse, to_canonical, package_part}
use nerw_rpc.Method.Grammar.{IsWellFormed, IsVersion, parse_iff, package_part-Avoids}
use nerw_rpc.Registry.{HandlerEntry, MethodRegistry, get, keys, lookup_entry}
use nerw_rpc.Registry.Order.{Among, Among-of_get}
use nerw_rpc.Registry.Invariant.{IsRegistry}
use nerw_rpc.Registry.Resolve.{at, lookup_entry-unpinned, IsPinned-of_Among}

-- If no `c` is left behind the split, then the split was at the last `c` too.
split_last :
    (c : ℕ) (x y p q : Text)
    → split_once c (x ++ (c ∷ y)) ≡ some (p, q)
    → Avoids c q
    → (p ≡ x) × (q ≡ y) × Avoids c x
split_last c x y p q e clear = elim (Option-cases (split_once c x)) [
  | inl missing ↦
      let no_c = split_once-none c x missing in
      let same = some-injective _ _ (sym e ∙ split_once-append c x y no_c) in
      (ap (λ (t : Text × Text). t.0) same, ap (λ (t : Text × Text). t.1) same, no_c)
  | inr ((a, b), found) ↦
      let (whole, no_c) = split_once-some c x a b found in
      let same : (p, q) ≡ (a, b ++ (c ∷ y)) = some-injective _ _ (
        sym e
        ∙ rw (whole, append_assoc a (c ∷ b) (c ∷ y)) (split_once-append c a (b ++ (c ∷ y)) no_c)) in
      let is_q : q ≡ b ++ (c ∷ y) = ap (λ (t : Text × Text). t.1) same in
      absurd ((All-right _ b (c ∷ y) (rw is_q at clear)).0 refl)
]

-- No registered method name has a slash.
abbrev pub HasPlainMethods : {U S : Type 0} → MethodRegistry U S → Type 0
HasPlainMethods r =
    (k : Text) (m : MethodName)
    → Among k (keys r.handlers)
    → parse k ≡ some m
    → Avoids b'/' m.method

-- Texts that agree agree in both parts of a split.
same_split :
    (c : ℕ) (a b a' b' : Text)
    → a ++ (c ∷ b) ≡ a' ++ (c ∷ b')
    → Avoids c a
    → Avoids c a'
    → (a ≡ a') × (b ≡ b')
same_split c a b a' b' e h h' =
    let same : (a, b) ≡ (a', b') =
      some-injective _ _
        (sym (split_once-append c a b h) ∙ ap (split_once c) e ∙ split_once-append c a' b' h') in
    (ap (λ (t : Text × Text). t.0) same, ap (λ (t : Text × Text). t.1) same)

part_no_slash :
    (part i m i' m' part' : Text)
    → part ++ (b'/' ∷ (i ++ (b'/' ∷ m))) ≡ part' ++ (b'/' ∷ (i' ++ (b'/' ∷ m')))
    → Avoids b'/' part'
    → Avoids b'/' i'
    → Avoids b'/' m'
    → Avoids b'/' part
part_no_slash part i m i' m' part' e clear_part clear_i clear_m =
    elim (Option-cases (split_once b'/' part)) [
      | inl missing ↦ split_once-none b'/' part missing
      | inr ((a, b), found) ↦
          let (whole, no_slash) = split_once-some b'/' part a b found in
          let shifted : a ++ (b'/' ∷ (b ++ (b'/' ∷ (i ++ (b'/' ∷ m)))))
              ≡ part' ++ (b'/' ∷ (i' ++ (b'/' ∷ m'))) =
            sym (append_assoc a (b'/' ∷ b) (b'/' ∷ (i ++ (b'/' ∷ m)))) ∙ rw (← whole) e in
          let (_, tails) = same_split b'/' a _ part' _ shifted no_slash clear_part in
          let again : split_once b'/' ((b ++ (b'/' ∷ i)) ++ (b'/' ∷ m)) ≡ some (i', m') =
            rw (append_assoc b (b'/' ∷ i) (b'/' ∷ m), tails)
              (split_once-append b'/' i' m' clear_i) in
          let (_, _, clear) = split_last b'/' (b ++ (b'/' ∷ i)) m i' m' again clear_m in
          absurd ((All-right _ b (b'/' ∷ i) clear).0 refl)
    ]

at-no_slash :
    (n m : MethodName) (v : Text) → parse (at n v) ≡ some m → Avoids b'/' m.method → Avoids b'/' v
unfolding to_canonical
at-no_slash n m v e clear =
    let (w, whole) = (parse_iff (at n v) m).0 e in
    let all : Avoids b'/' (n.pkg ++ (b'@' ∷ v)) =
      part_no_slash (n.pkg ++ (b'@' ∷ v)) n.interface n.method m.interface m.method
        (package_part m.pkg m.version) whole
        (package_part-Avoids m.pkg m.version w.pkg_no_slash w.version_good) w.interface_no_slash
        clear in
    (All-right _ n.pkg (b'@' ∷ v) all).1

at-ne-nil :
    (n m : MethodName) (v u : Text)
    → IsWellFormed n
    → parse (at n v) ≡ some m
    → m.version ≡ some u
    → Avoids b'/' v
    → v ≢ []
unfolding to_canonical
at-ne-nil n m v u w e has clear empty =
    let (w', whole) = (parse_iff (at n v) m).0 e in
    let no_slash : Avoids b'/' (n.pkg ++ (b'@' ∷ v)) =
      All-append _ n.pkg (b'@' ∷ v) w.pkg_no_slash (ground arith, clear) in
    let no_slash' = package_part-Avoids m.pkg m.version w'.pkg_no_slash w'.version_good in
    let (parts, _) = same_split b'/' (n.pkg ++ (b'@' ∷ v)) _ _ _ whole no_slash no_slash' in
    let parts' : n.pkg ++ (b'@' ∷ v) ≡ m.pkg ++ (b'@' ∷ u) = parts ∙ ap (package_part m.pkg) has in
    let (_, same) = same_split b'@' n.pkg v m.pkg u parts' w.pkg_no_at w'.pkg_no_at in
    let good : IsVersion (some u) = rw has at w'.version_good in good.0 (sym same ∙ empty)

module _ {U S : Type 0} (r : MethodRegistry U S) (valid : IsRegistry r) where
  -- In a registry whose method names have no slash, a name without a version leads to an entry that
  -- is registered under the same package, interface and method, at a version.
  pub lookup_entry-same_triple :
      (name : Text) (n : MethodName) (e : HandlerEntry U S)
      → HasPlainMethods r
      → parse name ≡ some n
      → n.version ≡ none
      → lookup_entry name r ≡ some e
      → (v : Text) × (get (at n v) r.handlers ≡ some e)
        × (parse (at n v) ≡ some (record n { version = some v }))
  lookup_entry-same_triple name n e plain parsed no_version found =
      let (v, got, _) = (lookup_entry-unpinned r valid name n parsed no_version).0 e found in
      let among = Among-of_get r.handlers (at n v) e got in
      let (m, u, parsed', has) = IsPinned-of_Among (keys r.handlers) (at n v) valid.pinned among in
      let clear = at-no_slash n m v parsed' (plain (at n v) m among parsed') in
      let (w, _) = (parse_iff name n).0 parsed in
      let filled = at-ne-nil n m v u w parsed' has clear in
      (
        v,
        got,
        (parse_iff (at n v) (record n { version = some v })).1 (
          record {
            pkg_filled = w.pkg_filled;
            pkg_no_at = w.pkg_no_at;
            pkg_no_slash = w.pkg_no_slash;
            version_good = (filled, clear);
            interface_filled = w.interface_filled;
            interface_no_slash = w.interface_no_slash;
            method_filled = w.method_filled;
          },
          refl,
        ),
      )
