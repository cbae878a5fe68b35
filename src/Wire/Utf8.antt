-- ===== src/Wire/Utf8.antt =====
-- `std::str::from_utf8`: which byte sequences are UTF-8.
use nerw_rpc.Prelude.{ℕ, zero, suc, List, [], ◌∷◌, Option, none, some, Bool, true, false, ◌&&◌}
use nerw_rpc.Prelude.{ltb, leb, ◌==◌, if◌then◌else◌}
use nerw_rpc.Prelude.Text.{Text}
use nerw_rpc.Result.{Result, ok, err}

-- The bytes still to come after a leading byte, and the range of the next one.
abbrev lead : ℕ → Option (ℕ × ℕ × ℕ)
lead b =
    if ltb b 0x80
    then some (0, 0, 0)
    else if ltb b 0xc2
    then none
    else if ltb b 0xe0
    then some (1, 0x80, 0xbf)
    else if b == 0xe0
    then some (2, 0xa0, 0xbf)
    else if b == 0xed
    then some (2, 0x80, 0x9f)
    else if ltb b 0xf0
    then some (2, 0x80, 0xbf)
    else if b == 0xf0
    then some (3, 0x90, 0xbf)
    else if ltb b 0xf4
    then some (3, 0x80, 0xbf)
    else if b == 0xf4
    then some (3, 0x80, 0x8f)
    else none

utf8_from : ℕ → ℕ → ℕ → List ℕ → Bool
utf8_from zero lo hi [] = true
utf8_from (suc n) lo hi [] = false
utf8_from zero lo hi (b ∷ s) = elim (lead b) [ none ↦ false | some (n, l, h) ↦ utf8_from n l h s ]
utf8_from (suc n) lo hi (b ∷ s) = (leb lo b && leb b hi) && utf8_from n 0x80 0xbf s

unfoldable pub is_utf8 : List ℕ → Bool
unfolding utf8_from
is_utf8 s = utf8_from 0 0 0 s

-- `show_utf8` is the `Display` of the error for the bytes that are refused.
abbrev pub from_utf8 : (List ℕ → Text) → List ℕ → Result Text Text
from_utf8 show_utf8 s = if is_utf8 s then ok s else err (show_utf8 s)
