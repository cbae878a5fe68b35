-- ===== src/Tests/Versions.antt =====
-- Names without a version, at two versions of one method.
use nerw_rpc.Prelude.{ℕ, ◌≡◌, refl, [], ◌∷◌, ◌++◌, some, false, arith}
use nerw_rpc.Prelude.Text.{Text, utf8, text_leb}
use nerw_rpc.Result.{ok}
use nerw_rpc.Method.{parse, to_canonical}
use nerw_rpc.Registry.{unary, MethodRegistry, new, register, lookup}
use nerw_rpc.Registry.Resolve.{at}
use nerw_rpc.Registry.Versions.{lookup_prefers_shorter, lookup_prefers_greater_byte}
use nerw_rpc.Tests.Names.{send, send-IsWellFormed}

abbrev at_1 : Text
at_1 = at send (utf8 "1")

abbrev at_1_2 : Text
at_1_2 = at send (utf8 "1" ++ (b'.' ∷ utf8 "2"))

abbrev short_only : MethodRegistry ℕ ℕ
short_only = record { handlers = (at_1, unary 7) ∷ [] }

abbrev both_versions : MethodRegistry ℕ ℕ
both_versions = record { handlers = (at_1, unary 7) ∷ (at_1_2, unary 8) ∷ [] }

registered_short : register {U = ℕ} {S = ℕ} at_1 7 new ≡ ok short_only
unfolding register parse to_canonical
registered_short = refl

registered_long : register {U = ℕ} {S = ℕ} at_1_2 8 short_only ≡ ok both_versions
unfolding register parse to_canonical
registered_long = refl

abbrev long_only : MethodRegistry ℕ ℕ
long_only = record { handlers = (at_1_2, unary 8) ∷ [] }

abbrev both_reversed : MethodRegistry ℕ ℕ
both_reversed = record { handlers = (at_1_2, unary 8) ∷ (at_1, unary 7) ∷ [] }

registered_long_first : register {U = ℕ} {S = ℕ} at_1_2 8 new ≡ ok long_only
unfolding register parse to_canonical
registered_long_first = refl

registered_short_last : register {U = ℕ} {S = ℕ} at_1 7 long_only ≡ ok both_reversed
unfolding register parse to_canonical
registered_short_last = refl

lookup_prefers_shorter_example :
    (lookup (to_canonical send) both_versions ≡ some 7)
    × (lookup (to_canonical send) both_reversed ≡ some 7)
    × (text_leb (utf8 "1" ++ (b'.' ∷ utf8 "2")) (utf8 "1") ≡ false)
lookup_prefers_shorter_example =
    lookup_prefers_shorter send send-IsWellFormed refl (utf8 "1") (utf8 "2") 7 8 short_only
      both_versions long_only both_reversed registered_short registered_long registered_long_first
      registered_short_last

abbrev at_9 : Text
at_9 = at send (utf8 "1." ++ (b'9' ∷ utf8 ".0"))

abbrev at_10 : Text
at_10 = at send (utf8 "1." ++ (b'1' ∷ utf8 "0.0"))

abbrev nine_only : MethodRegistry ℕ ℕ
nine_only = record { handlers = (at_9, unary 9) ∷ [] }

abbrev nine_and_ten : MethodRegistry ℕ ℕ
nine_and_ten = record { handlers = (at_9, unary 9) ∷ (at_10, unary 10) ∷ [] }

registered_nine : register {U = ℕ} {S = ℕ} at_9 9 new ≡ ok nine_only
unfolding register parse to_canonical
registered_nine = refl

registered_ten : register {U = ℕ} {S = ℕ} at_10 10 nine_only ≡ ok nine_and_ten
unfolding register parse to_canonical
registered_ten = refl

abbrev ten_only : MethodRegistry ℕ ℕ
ten_only = record { handlers = (at_10, unary 10) ∷ [] }

abbrev ten_and_nine : MethodRegistry ℕ ℕ
ten_and_nine = record { handlers = (at_10, unary 10) ∷ (at_9, unary 9) ∷ [] }

registered_ten_first : register {U = ℕ} {S = ℕ} at_10 10 new ≡ ok ten_only
unfolding register parse to_canonical
registered_ten_first = refl

registered_nine_last : register {U = ℕ} {S = ℕ} at_9 9 ten_only ≡ ok ten_and_nine
unfolding register parse to_canonical
registered_nine_last = refl

lookup_prefers_greater_byte_example :
    (lookup (to_canonical send) nine_and_ten ≡ some 9)
    × (lookup (to_canonical send) ten_and_nine ≡ some 9)
lookup_prefers_greater_byte_example =
    lookup_prefers_greater_byte send send-IsWellFormed refl (utf8 "1.") (utf8 ".0") (utf8 "0.0")
      b'1' b'9' 9 10 nine_only nine_and_ten ten_only ten_and_nine (omega arith) registered_nine
      registered_ten registered_ten_first registered_nine_last
