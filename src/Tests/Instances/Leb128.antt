-- ===== src/Tests/Instances/Leb128.antt =====
-- An implementation of unsigned LEB128.
use nerw_rpc.Prelude.{
  ℕ, zero, suc, ◌+◌, ◌-◌, ◌*◌, ◌/◌, ◌%◌, ◌^◌, ◌≤◌, ◌<◌, List, [], ◌∷◌, ◌++◌, ◌≡◌, refl, arith,
  Bool-cases, inl, inr, length, ltb, if◌then◌else◌,
}
use nerw_rpc.Prelude.Text.{Text, utf8}
use nerw_rpc.Result.{Result, ok, err, Result-cases}
use nerw_rpc.External.Leb128.{Leb128, Leb128Laws, groups}

-- The value and the position once the groups behind a byte with the top bit are read.
abbrev join : ℕ → Result Text (ℕ × ℕ) → Result Text (ℕ × ℕ)
join b (err e) = err e
join b (ok (v, p)) =
    if ltb (b - 128 + 128 * v) (2 ^ 64)
    then ok (b - 128 + 128 * v, suc p)
    else err (utf8 "overflow")

unfoldable pub read_groups : List ℕ → Result Text (ℕ × ℕ)
read_groups [] = err (utf8 "failed to fill whole buffer")
read_groups (b ∷ s) = let more = read_groups s in if ltb b 128 then ok (b, 1) else join b more

abbrev pub leb128 : Leb128
leb128 = record {
  write = λ v. if ltb v (2 ^ 64) then ok (groups 9 v) else err (utf8 "overflow");
  read = read_groups;
}

join-groups :
    (v p : ℕ) → 128 ≤ v → v < 2 ^ 64 → join (v % 128 + 128) (ok (v / 128, p)) ≡ ok (v, suc p)
join-groups v p h h' = ground arith

read-groups :
    (k v : ℕ) (rest : List ℕ)
    → v < 128 ^ suc k
    → v < 2 ^ 64
    → read_groups (groups k v ++ rest) ≡ ok (v, length (groups k v))
unfolding read_groups groups
read-groups zero v rest h h' = ground arith
read-groups (suc k) v rest h h' = elim (Bool-cases (ltb v 128)) [
  | inl small ↦ rw small (rw small refl)
  | inr large ↦ rw large (
      rw (read-groups k (v / 128) rest (omega arith) (omega arith))
        (ground (arith, join-groups v (length (groups k (v / 128))))))
]

read_takes :
    (s : List ℕ) (v p : ℕ) → read_groups s ≡ ok (v, p) → (v < 2 ^ 64) × (0 < p) × (p ≤ length s)
unfolding read_groups
read_takes [] v p h = cc
read_takes (b ∷ s) v p h = elim (Result-cases (read_groups s)) [
  | inl ((u, q), e) ↦ ground (arith, read_takes s u q e)
  | inr (x, e) ↦ ground arith
]

groups_step : (v : ℕ) → 128 ≤ v → groups 9 v ≡ (v % 128 + 128) ∷ groups 8 (v / 128)
unfolding groups
groups_step v h = ground arith

-- Nine groups are no more than eight for a number that eight can hold.
groups_fuel : (k v : ℕ) → v < 128 ^ suc k → groups (suc k) v ≡ groups k v
unfolding groups
groups_fuel zero v h = ground arith
groups_fuel (suc k) v h = ground (arith, groups_fuel k (v / 128) (omega arith))

write_large :
    (v : ℕ) (bytes : List ℕ)
    → 128 ≤ v
    → v < 2 ^ 64
    → leb128.write (v / 128) ≡ ok bytes
    → leb128.write v ≡ ok ((v % 128 + 128) ∷ bytes)
write_large v bytes h h' e = ground (arith, groups_step v h, groups_fuel 8 (v / 128) (omega arith))

read-write :
    (v : ℕ) (bytes rest : List ℕ)
    → v < 2 ^ 64
    → leb128.write v ≡ ok bytes
    → leb128.read (bytes ++ rest) ≡ ok (v, length bytes)
read-write v bytes rest h e =
    let same : groups 9 v ≡ bytes = ground arith in
    rw (← same) (read-groups 9 v rest (omega arith) h)

pub leb128_laws : Leb128Laws leb128
unfolding groups
leb128_laws = record {
  write_small = λ v h. ground arith;
  write_large = write_large;
  read-write = read-write;
  read_takes = read_takes;
}
