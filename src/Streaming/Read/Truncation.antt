-- ===== src/Streaming/Read/Truncation.antt =====
-- The tenth byte of a varint: `checked_shl` drops the bits that a u64 does not hold.
use nerw_rpc.Prelude.{
  ℕ, suc, ◌+◌, ◌-◌, ◌*◌, ◌/◌, ◌%◌, ◌^◌, ◌≤◌, ◌<◌, List, [], ◌∷◌, ◌++◌, ◌≡◌, refl, ap, ◌∙◌, arith,
  length, false, ◌==◌,
}
use nerw_rpc.Result.{ok}
use nerw_rpc.External.Quic.{RecvStream, RecvLaws, ReadExactError}
use nerw_rpc.Prelude.Text.{Text}
use nerw_rpc.Streaming.Read.{varint_loop, read_varint_u64, add_group}
use nerw_rpc.Streaming.Read.Varint.{loop_step, pow_step, if_false}

-- The number that the bytes of a varint stand for, seven bits a byte, from the position `shift` on.
abbrev pub value : ℕ → List ℕ → ℕ
value shift [] = 0
value shift (byte ∷ rest) = byte % 128 * 2 ^ (shift * 7) + value (suc shift) rest

-- Bytes behind each of which another one follows.
abbrev pub AllContinue : List ℕ → Type 0
AllContinue [] = Unit {0}
AllContinue (byte ∷ rest) = (128 ≤ byte) × (byte < 256) × AllContinue rest

digit_below : (d w : ℕ) → d < 128 → d * w + w ≤ 128 * w
digit_below d w h =
    let c = 127 - d in
    let all : 128 ≡ d + 1 + c = omega arith in
    let spread : (d + 1 + c) * w ≡ d * w + w + c * w = omega arith in
    let total : 128 * w ≡ d * w + w + c * w = ap (λ n. n * w) all ∙ spread in omega (arith, total)

value_below :
    (shift : ℕ) (bytes : List ℕ)
    → value shift bytes + 2 ^ (shift * 7) ≤ 2 ^ ((shift + length bytes) * 7)
value_below shift [] = let same : shift + 0 ≡ shift = omega arith in rw same (omega arith)
value_below shift (byte ∷ rest) =
    let w = 2 ^ (shift * 7) in
    let same : shift + suc (length rest) ≡ suc shift + length rest = omega arith in
    let digit = digit_below (byte % 128) w (omega arith) in
    let later : value (suc shift) rest + 128 * w ≤ 2 ^ ((suc shift + length rest) * 7) =
      rw (pow_step shift) at (value_below (suc shift) rest) in
    rw same (omega (arith, digit, later))

value-append :
    (shift : ℕ) (bytes : List ℕ) (b : ℕ)
    → value shift (bytes ++ (b ∷ []))
      ≡ value shift bytes + b % 128 * 2 ^ ((shift + length bytes) * 7)
value-append shift [] b = let same : shift + 0 ≡ shift = omega arith in rw same (omega arith)
value-append shift (byte ∷ rest) b =
    let same : shift + suc (length rest) ≡ suc shift + length rest = omega arith in
    rw same (omega (arith, value-append (suc shift) rest b))

module _ {R : Type 0} {recv : RecvStream R} (laws : RecvLaws recv)
    (show_read : ReadExactError → Text) where
  loop-continue :
      (bytes : List ℕ) (shift result : ℕ) (rest : List ℕ) (r : R)
      → AllContinue bytes
      → shift + length bytes ≡ 9
      → result + value shift bytes < 2 ^ 64
      → laws.pending r ≡ bytes ++ rest
      → (s : R) × (varint_loop recv show_read (suc (length bytes)) shift result r
          ≡ varint_loop recv show_read 1 9 (result + value shift bytes) s)
        × (laws.pending s ≡ rest)
  loop-continue [] shift result rest r all h small p =
      let nine : shift ≡ 9 = omega arith in
      let same : result + 0 ≡ result = omega arith in (r, rw (nine, same) refl, p)
  loop-continue (byte ∷ bytes) shift result rest r (low, high, all) h small p =
      let w = 2 ^ (shift * 7) in
      let more : (byte / 128 % 2 == 0) ≡ false = ground arith in
      let (s, e, q) =
        loop_step laws show_read (suc (length bytes)) shift result byte (bytes ++ rest) r
          (omega arith) (omega arith) p in
      let (t, f, u) =
        loop-continue bytes (suc shift) (result + byte % 128 * w) rest s all (omega arith)
          (omega arith) q in
      let total : result + byte % 128 * w + value (suc shift) bytes
          ≡ result + (byte % 128 * w + value (suc shift) bytes) =
        omega arith in
      (t, e ∙ if_false _ _ more ∙ f ∙ ap (λ n. varint_loop recv show_read 1 9 n t) total, u)

  last_byte :
      (b result : ℕ) (rest : List ℕ) (r : R)
      → b < 128
      → result < 2 ^ 63
      → laws.pending r ≡ b ∷ rest
      → (s : R) × (varint_loop recv show_read 1 9 result r
          ≡ (ok ((result + b * 2 ^ 63) % 2 ^ 64), s))
        × (laws.pending s ≡ rest)
  unfolding varint_loop add_group
  last_byte b result rest r h small p =
      let (s, e, q) = laws.read_exact-pending (b ∷ []) rest r p in
      let sum : add_group 9 result b ≡ ok ((result + b * 2 ^ 63) % 2 ^ 64) = ground arith in
      (s, rw e (ground (arith, sum)), q)

  -- A varint of ten bytes, nine that announce another one and a last one, may stand for a number that
  -- is no u64. It is not refused: the reader returns the number modulo 2 ^ 64 and leaves what follows.
  pub read_varint_u64_truncates :
      (bytes : List ℕ) (b : ℕ) (rest : List ℕ) (r : R)
      → length bytes ≡ 9
      → AllContinue bytes
      → b < 128
      → laws.pending r ≡ bytes ++ (b ∷ rest)
      → (s : R) × (read_varint_u64 recv show_read r
          ≡ (ok (value 0 (bytes ++ (b ∷ [])) % 2 ^ 64), s))
        × (laws.pending s ≡ rest)
  unfolding read_varint_u64
  read_varint_u64_truncates bytes b rest r nine all h p =
      let below : value 0 bytes + 1 ≤ 2 ^ 63 = rw nine at (value_below 0 bytes) in
      let same : b % 128 ≡ b = omega arith in
      let whole : value 0 (bytes ++ (b ∷ [])) ≡ value 0 bytes + b * 2 ^ 63 =
        rw (nine, same) at (value-append 0 bytes b) in
      let (s, e, q) = loop-continue bytes 0 0 (b ∷ rest) r all (omega arith) (omega arith) p in
      let (t, f, u) = last_byte b (0 + value 0 bytes) rest s h (omega arith) q in
      let start : varint_loop recv show_read 10 0 0 r
          ≡ varint_loop recv show_read (suc (length bytes)) 0 0 r =
        rw nine refl in
      (t, start ∙ e ∙ f ∙ ap (λ n. (ok (n % 2 ^ 64), t)) (omega (arith, whole)), u)
