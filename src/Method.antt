-- ===== src/Method.antt =====
-- src/method.rs: the canonical method name.
pub mod Grammar
use nerw_rpc.Prelude.{[], ◌∷◌, ◌++◌, Option, none, some, Bool, true, false, ◌||◌, if◌then◌else◌}
use nerw_rpc.Prelude.Text.{Text}
use nerw_rpc.Prelude.Split.{split_once}

pub record MethodName : Type 0 where
  pub pkg : Text
  pub version : Option Text
  pub interface : Text
  pub method : Text

infixl 5 ◌>>=◌
abbrev pub ◌>>=◌ : {A B : Type 0} → Option A → (A → Option B) → Option B
none >>= k = none
some a >>= k = k a

abbrev is_empty : Text → Bool
is_empty [] = true
is_empty (_ ∷ _) = false

-- The package and the version of what stands before the first slash.
abbrev split_version : Text → Option (Text × Option Text)
split_version pkg_part = elim (split_once b'@' pkg_part) [
  | none ↦ some (pkg_part, none)
  | some (pkg, ver) ↦ if is_empty pkg || is_empty ver then none else some (pkg, some ver)
]

-- `parse` once the three parts are found.
pub parse_parts : Text → Text → Text → Option MethodName
parse_parts pkg_part interface method = do
  (pkg, version) ←
      if is_empty pkg_part || (is_empty interface || is_empty method)
      then none
      else split_version pkg_part
  some (record { pkg = pkg; version = version; interface = interface; method = method })

-- `splitn(3, '/')` gives three parts exactly if there are two slashes.
unfoldable pub parse : Text → Option MethodName
unfolding parse_parts
parse s = do
  (pkg_part, tail) ← split_once b'/' s
  (interface, method) ← split_once b'/' tail
  parse_parts pkg_part interface method

abbrev pub package_part : Text → Option Text → Text
package_part pkg none = pkg
package_part pkg (some v) = pkg ++ (b'@' ∷ v)

unfoldable pub to_canonical : MethodName → Text
to_canonical n = package_part n.pkg n.version ++ (b'/' ∷ (n.interface ++ (b'/' ∷ n.method)))
