-- ===== src/Prelude/Text.antt =====
-- Rust strings and byte slices as lists of bytes. A `String` holds its UTF-8 bytes.
use Prim.Native.Char.{code}
use Prim.Native.String.{String}
use Prim.Native.Nat.{ℕ, zero, suc, ◌+◌, ◌/◌, ◌%◌, ◌<◌}
use mathlib.Core.Path.{◌≡◌, refl}
use mathlib.Core.Logic.{◌↔◌}
use mathlib.Core.Bool.{Bool, true, false, ◌&&◌, ◌||◌}
use mathlib.Core.Option.{Option, none, some}
use mathlib.Core.List.{List, [], ◌∷◌, ◌++◌}
use native.Mathlib.Omega.{arith}
use nerw_rpc.Prelude.Tests.{ltb, ◌==◌, if◌then◌else◌}

abbrev pub Text : Type 0
Text = List ℕ

abbrev pub IsByte : ℕ → Type 0
IsByte b = b < 256

-- The UTF-8 encoding of a code point.
abbrev pub utf8_char : ℕ → Text → Text
utf8_char c t =
    if ltb c 0x80
    then c ∷ t
    else if ltb c 0x800
    then (0xc0 + c / 64) ∷ (0x80 + c % 64) ∷ t
    else if ltb c 0x10000
    then (0xe0 + c / 4096) ∷ (0x80 + c / 64 % 64) ∷ (0x80 + c % 64) ∷ t
    else (0xf0 + c / 262144) ∷ (0x80 + c / 4096 % 64) ∷ (0x80 + c / 64 % 64) ∷ (0x80 + c % 64) ∷ t

-- The bytes of a literal.
abbrev pub utf8 : String → Text
utf8 String.[] = []
utf8 (String.◌∷◌ c s) = utf8_char (code c) (utf8 s)

abbrev pub text_eq : Text → Text → Bool
text_eq [] [] = true
text_eq (a ∷ s) (b ∷ t) = (a == b) && text_eq s t
text_eq _ _ = false

pub text_eq_refl : (s : Text) → text_eq s s ≡ true
text_eq_refl [] = refl
text_eq_refl (a ∷ s) = ground (arith, text_eq_refl s)

pub eq_of_text_eq : (s t : Text) → text_eq s t ≡ true → s ≡ t
eq_of_text_eq [] [] h = refl
eq_of_text_eq [] (b ∷ t) h = cc
eq_of_text_eq (a ∷ s) [] h = cc
eq_of_text_eq (a ∷ s) (b ∷ t) h = ground (arith, eq_of_text_eq s t)

pub text_eq_iff : (s t : Text) → (text_eq s t ≡ true) ↔ (s ≡ t)
text_eq_iff s t = (eq_of_text_eq s t, λ e. rw e (text_eq_refl t))

-- `str::strip_prefix`.
abbrev pub strip_prefix : Text → Text → Option Text
strip_prefix [] s = some s
strip_prefix (a ∷ p) [] = none
strip_prefix (a ∷ p) (b ∷ s) = if a == b then strip_prefix p s else none

strip_prefix-append : (p s : Text) → strip_prefix p (p ++ s) ≡ some s
strip_prefix-append [] s = refl
strip_prefix-append (a ∷ p) s = ground (arith, strip_prefix-append p s)

strip_prefix-eq-some : (p s t : Text) → strip_prefix p s ≡ some t → s ≡ p ++ t
strip_prefix-eq-some [] s t h = ground arith
strip_prefix-eq-some (a ∷ p) [] t h = cc
strip_prefix-eq-some (a ∷ p) (b ∷ s) t h = ground (arith, strip_prefix-eq-some p s t)

-- `str::starts_with` and `str::ends_with`.
abbrev pub starts_with : Text → Text → Bool
starts_with [] s = true
starts_with (a ∷ p) [] = false
starts_with (a ∷ p) (b ∷ s) = (a == b) && starts_with p s

abbrev pub ends_with : Text → Text → Bool
ends_with q [] = text_eq q []
ends_with q (b ∷ s) = text_eq q (b ∷ s) || ends_with q s

-- `Ord` on strings: bytes, in lexicographic order.
abbrev pub text_leb : Text → Text → Bool
text_leb [] t = true
text_leb (a ∷ s) [] = false
text_leb (a ∷ s) (b ∷ t) = if a == b then text_leb s t else ltb a b

-- Decimal digits of a number below 10 ^ 20, which is all that a `u64` or a `usize` needs.
pub decimal_go : ℕ → ℕ → Text → Text
decimal_go zero n t = t
decimal_go (suc f) n t =
    let more = decimal_go f (n / 10) ((48 + n % 10) ∷ t) in if ltb n 10 then (48 + n) ∷ t else more

unfoldable pub decimal : ℕ → Text
unfolding decimal_go
decimal n = decimal_go 20 n []

abbrev hex_digit : ℕ → ℕ
hex_digit d = if ltb d 10 then 48 + d else 87 + d

-- `{:02x}` of a byte.
abbrev pub hex2 : ℕ → Text
hex2 b = hex_digit (b / 16) ∷ hex_digit (b % 16) ∷ []
