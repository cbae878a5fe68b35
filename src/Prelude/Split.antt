-- ===== src/Prelude/Split.antt =====
-- Splitting a text at the first occurrence of a byte.
use nerw_rpc.Prelude.Text.{Text}
use nerw_rpc.Prelude.Tests.{◌==◌, if◌then◌else◌}
use nerw_rpc.Prelude.Lists.{All}
use Prim.Native.Nat.{ℕ}
use mathlib.Core.Path.{◌≡◌, refl}
use mathlib.Core.Logic.{◌≢◌}
use mathlib.Core.Option.{Option, none, some}
use mathlib.Core.List.{[], ◌∷◌, ◌++◌}
use native.Mathlib.Omega.{arith}

-- What stands before the first `c` and what stands behind it, if there is one.
abbrev pub split_once : ℕ → Text → Option (Text × Text)
split_once c [] = none
split_once c (b ∷ s) =
    let more = split_once c s in
    if b == c then some ([], s) else elim more [ none ↦ none | some (x, y) ↦ some (b ∷ x, y) ]

abbrev pub Avoids : ℕ → Text → Type 0
Avoids c = All (λ b. b ≢ c)

pub split_once-append :
    (c : ℕ) (x y : Text) → Avoids c x → split_once c (x ++ (c ∷ y)) ≡ some (x, y)
split_once-append c [] y h = ground arith
split_once-append c (b ∷ x) y (h, hs) = ground (arith, split_once-append c x y hs)

pub split_once-Avoids : (c : ℕ) (s : Text) → Avoids c s → split_once c s ≡ none
split_once-Avoids c [] h = refl
split_once-Avoids c (b ∷ s) (h, hs) = ground (arith, split_once-Avoids c s hs)

pub split_once-none : (c : ℕ) (s : Text) → split_once c s ≡ none → Avoids c s
split_once-none c [] h = tt
split_once-none c (b ∷ s) h = ground (arith, split_once-none c s)

pub split_once-some :
    (c : ℕ) (s x y : Text) → split_once c s ≡ some (x, y) → (s ≡ x ++ (c ∷ y)) × Avoids c x
split_once-some c [] x y h = cc
split_once-some c (b ∷ s) [] y h = ground arith
split_once-some c (b ∷ s) (d ∷ x) y h = ground (arith, split_once-some c s x y)
