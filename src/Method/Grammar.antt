-- ===== src/Method/Grammar.antt =====
-- `parse` accepts exactly the canonical texts of well-formed names, and `to_canonical` undoes it.
use mathlib.Core.Path.{subst}
use mathlib.Core.Option.{some-injective}
use mathlib.Core.Bool.{◌||◌}
use nerw_rpc.Prelude.{
  ℕ, All-append, All-left, All-right, Bool-cases, ◌≡◌, refl, ◌∙◌, [], ◌∷◌, ◌++◌, ◌≢◌, ◌↔◌, Option,
  none, some, false, arith, Option-cases, inl, inr,
}
use nerw_rpc.Prelude.Text.{Text}
use nerw_rpc.Prelude.Split.{
  split_once, Avoids, split_once-append, split_once-Avoids, split_once-none, split_once-some,
}
use nerw_rpc.Method.{
  MethodName, is_empty, ◌>>=◌, parse, parse_parts, to_canonical, package_part, split_version,
}

abbrev pub IsVersion : Option Text → Type 0
IsVersion none = Unit
IsVersion (some v) = (v ≢ []) × Avoids b'/' v

-- The grammar `package[@version]/interface/method` as the code reads it: no part is empty, the
-- package has no `/` and no `@`, the version and the interface have no `/`. The method may have.
pub record IsWellFormed (n : MethodName) : Type 0 where
  pub pkg_filled : n.pkg ≢ []
  pub pkg_no_at : Avoids b'@' n.pkg
  pub pkg_no_slash : Avoids b'/' n.pkg
  pub version_good : IsVersion n.version
  pub interface_filled : n.interface ≢ []
  pub interface_no_slash : Avoids b'/' n.interface
  pub method_filled : n.method ≢ []

is_empty-eq-false : (s : Text) → s ≢ [] → is_empty s ≡ false
is_empty-eq-false [] h = absurd (h refl)
is_empty-eq-false (b ∷ s) h = refl

ne-nil_of_is_empty : (s : Text) → is_empty s ≡ false → s ≢ []
ne-nil_of_is_empty [] h = λ e. cc
ne-nil_of_is_empty (b ∷ s) h = λ e. cc

pub >>=-eq-some :
    {A B : Type 0} (o : Option A) (f : A → Option B) {b : B}
    → (o >>= f) ≡ some b
    → (a : A) × (o ≡ some a) × (f a ≡ some b)
>>=-eq-some none f h = cc
>>=-eq-some (some a) f h = (a, refl, h)

split_version-package_part :
    (pkg : Text) (version : Option Text)
    → pkg ≢ []
    → Avoids b'@' pkg
    → IsVersion version
    → split_version (package_part pkg version) ≡ some (pkg, version)
split_version-package_part pkg none filled no_at good =
    rw (split_once-Avoids b'@' pkg no_at, split_version) refl
split_version-package_part pkg (some v) filled no_at good =
    rw (split_once-append b'@' pkg v no_at, split_version)
      (rw (is_empty-eq-false pkg filled, is_empty-eq-false v good.0) refl)

package_part-ne-nil :
    (pkg : Text) (version : Option Text) → pkg ≢ [] → package_part pkg version ≢ []
package_part-ne-nil pkg none h = h
package_part-ne-nil [] (some v) h = absurd (h refl)
package_part-ne-nil (b ∷ pkg) (some v) h = λ e. cc

Avoids-append : (c : ℕ) (x y : Text) → Avoids c x → Avoids c y → Avoids c (x ++ y)
Avoids-append c = All-append _

pub package_part-Avoids :
    (pkg : Text) (version : Option Text)
    → Avoids b'/' pkg
    → IsVersion version
    → Avoids b'/' (package_part pkg version)
package_part-Avoids pkg none h good = h
package_part-Avoids pkg (some v) h good = Avoids-append b'/' pkg (b'@' ∷ v) h (ground arith, good.1)

parse_parts_of_IsWellFormed :
    (n : MethodName)
    → IsWellFormed n
    → parse_parts (package_part n.pkg n.version) n.interface n.method ≡ some n
unfolding parse_parts
parse_parts_of_IsWellFormed n w =
    rw
      (
        is_empty-eq-false _ (package_part-ne-nil n.pkg n.version w.pkg_filled),
        is_empty-eq-false n.interface w.interface_filled,
        is_empty-eq-false n.method w.method_filled,
      )
      (rw (split_version-package_part n.pkg n.version w.pkg_filled w.pkg_no_at w.version_good) refl)

-- `parse` reads back what `to_canonical` writes for a well-formed name.
parse-to_canonical : (n : MethodName) → IsWellFormed n → parse (to_canonical n) ≡ some n
unfolding parse to_canonical
parse-to_canonical n w =
    let part = package_part n.pkg n.version in
    rw
      (split_once-append b'/' part (n.interface ++ (b'/' ∷ n.method))
        (package_part-Avoids n.pkg n.version w.pkg_no_slash w.version_good))
      (rw (split_once-append b'/' n.interface n.method w.interface_no_slash)
        (parse_parts_of_IsWellFormed n w))

-- What a part before the first slash says of the package and the version read from it.
abbrev VersionFacts : Text → Text × Option Text → Type 0
VersionFacts part q =
    (part ≡ package_part q.0 q.1) × (q.0 ≢ []) × Avoids b'@' q.0 × Avoids b'/' q.0 × IsVersion q.1

filled_parts : (x y : Text) → (is_empty x || is_empty y) ≡ false → (x ≢ []) × (y ≢ [])
filled_parts [] y h = cc
filled_parts (b ∷ x) y h = (λ e. cc, ne-nil_of_is_empty y h)

filled_three :
    (x y z : Text)
    → (is_empty x || (is_empty y || is_empty z)) ≡ false
    → (x ≢ []) × (y ≢ []) × (z ≢ [])
filled_three [] y z h = cc
filled_three (b ∷ x) y z h = let (fy, fz) = filled_parts y z h in (λ e. cc, fy, fz)

split_version_sound :
    (part : Text) (q : Text × Option Text)
    → part ≢ []
    → Avoids b'/' part
    → split_version part ≡ some q
    → VersionFacts part q
split_version_sound part q filled no_slash h = elim (Option-cases (split_once b'@' part)) [
  | inl e ↦
      subst (VersionFacts part) (some-injective _ _ (rw (e, split_version) at h))
        (refl, filled, split_once-none b'@' part e, no_slash, tt)
  | inr ((x, y), e) ↦ elim (Bool-cases (is_empty x || is_empty y)) [
    | inl t ↦ cc (rw t at (rw (e, split_version) at h))
    | inr f ↦
        let (whole, no_at) = split_once-some b'@' part x y e in
        let (fx, fy) = filled_parts x y f in
        let both : Avoids b'/' (x ++ (b'@' ∷ y)) = rw (← whole) no_slash in
        let at_y : Avoids b'/' (b'@' ∷ y) = All-right _ x (b'@' ∷ y) both in
        subst (VersionFacts part) (some-injective _ _ (rw f at (rw (e, split_version) at h)))
          (whole, fx, no_at, All-left _ x (b'@' ∷ y) both, (fy, at_y.1))
  ]
]

parse_parts_sound :
    (part interface method : Text) (n : MethodName)
    → Avoids b'/' part
    → Avoids b'/' interface
    → parse_parts part interface method ≡ some n
    → IsWellFormed n
      × (part ≡ package_part n.pkg n.version)
      × (interface ≡ n.interface)
      × (method ≡ n.method)
unfolding parse_parts
parse_parts_sound part interface method n no_slash no_slash' h =
    elim (Bool-cases (is_empty part || (is_empty interface || is_empty method))) [
      | inl t ↦ cc (rw t at h)
      | inr f ↦
          let (fp, fi, fm) = filled_three part interface method f in
          let (q, e, h') = >>=-eq-some (split_version part) _ (rw f at h) in
          let (whole, fx, no_at, no_slash'', good) = split_version_sound part q fp no_slash e in
          subst
            (λ (m : MethodName).
              IsWellFormed m
              × (part ≡ package_part m.pkg m.version)
              × (interface ≡ m.interface)
              × (method ≡ m.method))
            (some-injective _ _ h')
            (
              record {
                pkg_filled = fx;
                pkg_no_at = no_at;
                pkg_no_slash = no_slash'';
                version_good = good;
                interface_filled = fi;
                interface_no_slash = no_slash';
                method_filled = fm;
              },
              whole,
              refl,
              refl,
            )
    ]

parse_sound : (s : Text) (n : MethodName) → parse s ≡ some n → IsWellFormed n × (s ≡ to_canonical n)
unfolding parse to_canonical
parse_sound s n h =
    let ((part, tail), e, h') = >>=-eq-some (split_once b'/' s) _ h in
    let ((interface, method), e', h'') = >>=-eq-some (split_once b'/' tail) _ h' in
    let (whole, no_slash) = split_once-some b'/' s part tail e in
    let (whole', no_slash') = split_once-some b'/' tail interface method e' in
    let (w, p, q, r) = parse_parts_sound part interface method n no_slash no_slash' h'' in
    (w, whole ∙ rw (whole', p, q, r) refl)

-- A text parses to a name exactly if the name is well formed and the text is its canonical form.
pub parse_iff :
    (s : Text) (n : MethodName) → (parse s ≡ some n) ↔ (IsWellFormed n × (s ≡ to_canonical n))
parse_iff s n = (parse_sound s n, λ (w, e). rw e (parse-to_canonical n w))
