-- ===== src/Streaming/Read/Varint.antt =====
-- What the varint reader makes of the bytes of a stream.
use nerw_rpc.Prelude.{
  ℕ, zero, suc, ◌+◌, ◌*◌, ◌/◌, ◌%◌, ◌^◌, ◌≤◌, ◌<◌, List, [], ◌∷◌, ◌++◌, ◌≡◌, refl, arith, ltb, ◌==◌,
  Bool-cases, inl, inr, true, Bool, false, ap, ◌∙◌, if◌then◌else◌,
}
use native.Mathlib.Nat.{suc-mul, pow-suc}
use nerw_rpc.Result.{ok}
use nerw_rpc.External.Leb128.{groups}
use nerw_rpc.External.Quic.{RecvStream, RecvLaws, ReadExactError}
use nerw_rpc.Streaming.Read.{add_group, varint_loop, read_varint_u64}
use nerw_rpc.Prelude.Text.{Text}

pow_add_seven : (n : ℕ) → 2 ^ (n + 7) ≡ 128 * 2 ^ n
pow_add_seven n =
    let e : n + 7 ≡ suc (suc (suc (suc (suc (suc (suc n)))))) = omega arith in
    rw e (omega (arith, pow-suc 2 n, pow-suc 2 (suc n), pow-suc 2 (suc (suc n))))

pub pow_step : (s : ℕ) → 2 ^ (suc s * 7) ≡ 128 * 2 ^ (s * 7)
pow_step s = rw (suc-mul s 7) (pow_add_seven (s * 7))

pub if_false {ℓ} : {A : Type ℓ} {b : Bool} (x y : A) → b ≡ false → (if b then x else y) ≡ y
if_false x y e = rw e refl

distribute : (q b w : ℕ) → (128 * q + b) * w ≡ q * (128 * w) + b * w
distribute q b w = omega arith

low_high : (v w : ℕ) → v * w ≡ v / 128 * (128 * w) + v % 128 * w
low_high v w =
    let e : v ≡ 128 * (v / 128) + v % 128 = omega arith in
    ap (λ u. u * w) e ∙ distribute (v / 128) (v % 128) w

add_group-ok :
    (shift result byte : ℕ)
    → shift ≤ 9
    → result + byte % 128 * 2 ^ (shift * 7) < 2 ^ 64
    → add_group shift result byte ≡ ok (result + byte % 128 * 2 ^ (shift * 7))
unfolding add_group
add_group-ok shift result byte h h' = ground arith

module _ {R : Type 0} {recv : RecvStream R} (laws : RecvLaws recv)
    (show_read : ReadExactError → Text) where
  -- One iteration, on the byte that is pending.
  pub loop_step :
      (left shift result byte : ℕ) (rest : List ℕ) (r : R)
      → shift ≤ 9
      → result + byte % 128 * 2 ^ (shift * 7) < 2 ^ 64
      → laws.pending r ≡ byte ∷ rest
      → (s : R) × (varint_loop recv show_read (suc left) shift result r ≡ (
          if byte / 128 % 2 == 0
          then (ok (result + byte % 128 * 2 ^ (shift * 7)), s)
          else varint_loop recv show_read left
              (suc shift)
              (result + byte % 128 * 2 ^ (shift * 7))
              s))
        × (laws.pending s ≡ rest)
  unfolding varint_loop
  loop_step left shift result byte rest r h h' p =
      let (s, e, q) = laws.read_exact-pending (byte ∷ []) rest r p in
      elim (Bool-cases (byte / 128 % 2 == 0)) [
        | inl last ↦ (s, rw (e, add_group-ok shift result byte h h', last) refl, q)
        | inr more ↦ (s, rw (e, add_group-ok shift result byte h h', more) refl, q)
      ]

  -- The last byte of a varint.
  loop_last :
      (left shift result v : ℕ) (rest : List ℕ) (r : R)
      → shift ≤ 9
      → v < 128
      → result + v * 2 ^ (shift * 7) < 2 ^ 64
      → laws.pending r ≡ v ∷ rest
      → (s : R) × (varint_loop recv show_read (suc left) shift result r
          ≡ (ok (result + v * 2 ^ (shift * 7)), s))
        × (laws.pending s ≡ rest)
  loop_last left shift result v rest r h small h' p =
      let same : v % 128 ≡ v = omega arith in
      let last : (v / 128 % 2 == 0) ≡ true = ground arith in
      let (s, e, q) = loop_step left shift result v rest r h (rw same h') p in
      (s, e ∙ rw (same, last) refl, q)

  loop-groups :
      (k shift result v : ℕ) (rest : List ℕ) (r : R)
      → shift + k ≤ 9
      → v < 128 ^ suc k
      → result + v * 2 ^ (shift * 7) < 2 ^ 64
      → laws.pending r ≡ groups k v ++ rest
      → (s : R) × (varint_loop recv show_read (suc k) shift result r
          ≡ (ok (result + v * 2 ^ (shift * 7)), s))
        × (laws.pending s ≡ rest)
  unfolding groups
  loop-groups zero shift result v rest r h fits h' p =
      loop_last 0 shift result v rest r (omega arith) (omega arith) h' p
  loop-groups (suc k) shift result v rest r h fits h' p = elim (Bool-cases (ltb v 128)) [
    | inl small ↦
        loop_last (suc k) shift result v rest r (omega arith) (ground arith) h' (rw small at p)
    | inr large ↦
        let w = 2 ^ (shift * 7) in
        let sum : result + v * w ≡ result + v % 128 * w + v / 128 * (128 * w) =
          omega (arith, low_high v w) in
        let low : (v % 128 + 128) % 128 ≡ v % 128 = omega arith in
        let more : ((v % 128 + 128) / 128 % 2 == 0) ≡ false = ground arith in
        let (s, e, q) =
          loop_step (suc k) shift result (v % 128 + 128) (groups k (v / 128) ++ rest) r
            (omega arith) (rw low (omega (arith, sum))) (rw large at p) in
        let (t, f, u) =
          loop-groups k (suc shift) (result + v % 128 * w) (v / 128) rest s (omega arith)
            (omega arith) (rw (pow_step shift) (omega (arith, sum))) q in
        let total : result + v % 128 * w + v / 128 * 2 ^ (suc shift * 7) ≡ result + v * w =
          rw (pow_step shift) (omega (arith, sum)) in
        (
          t,
          e
              ∙ if_false _ _ more
              ∙ ap (λ b. varint_loop recv show_read (suc k) (suc shift) (result + b * w) s) low
              ∙ f
              ∙ ap (λ n. (ok n, t)) total,
          u,
        )
  ]

  -- What `encode_varint_u64` writes of a u64 is read back, and the bytes behind it are still to
  -- come.
  pub read_varint_u64-groups :
      (v : ℕ) (rest : List ℕ) (r : R)
      → v < 2 ^ 64
      → laws.pending r ≡ groups 9 v ++ rest
      → (s : R) × (read_varint_u64 recv show_read r ≡ (ok v, s)) × (laws.pending s ≡ rest)
  unfolding read_varint_u64
  read_varint_u64-groups v rest r h p =
      let (s, e, q) = loop-groups 9 0 0 v rest r (omega arith) (omega arith) (omega arith) p in
      (s, rw e (ground arith), q)
