-- ===== src/External/Leb128.antt =====
-- The `leb128` crate as a parameter, with what it documents, and the format that it writes.
use nerw_rpc.Prelude.{ℕ, zero, suc, ◌+◌, ◌/◌, ◌%◌, ◌^◌, ◌≤◌, ◌<◌, List, [], ◌∷◌, ◌++◌, ◌≡◌, arith}
use nerw_rpc.Prelude.{length, ltb, if◌then◌else◌, Bool-cases, inl, inr}
use nerw_rpc.Prelude.Text.{Text}
use nerw_rpc.Result.{Result, ok}

-- `leb128::write::unsigned` to a fresh buffer, and `leb128::read::unsigned` at the start of a
-- slice, with the cursor's position after it. An error is its `Display` text.
pub record Leb128 : Type 0 where
  pub write : ℕ → Result Text (List ℕ)
  pub read : List ℕ → Result Text (ℕ × ℕ)

-- What the crate documents: `write` is the unsigned LEB128 encoding, `read` undoes it and stops
-- behind it, and a successful `read` took at least one byte of the slice.
pub record Leb128Laws (l : Leb128) : Type 0 where
  pub write_small : (v : ℕ) → v < 128 → l.write v ≡ ok (v ∷ [])
  pub write_large :
      (v : ℕ) (bytes : List ℕ)
      → 128 ≤ v
      → v < 2 ^ 64
      → l.write (v / 128) ≡ ok bytes
      → l.write v ≡ ok ((v % 128 + 128) ∷ bytes)
  pub read-write :
      (v : ℕ) (bytes rest : List ℕ)
      → v < 2 ^ 64
      → l.write v ≡ ok bytes
      → l.read (bytes ++ rest) ≡ ok (v, length bytes)
  pub read_takes :
      (input : List ℕ) (v position : ℕ)
      → l.read input ≡ ok (v, position)
      → (v < 2 ^ 64) × (0 < position) × (position ≤ length input)

-- Groups of seven bits, lowest first, for `v` below 128 ^ (k + 1).
unfoldable pub groups : ℕ → ℕ → List ℕ
groups zero v = v ∷ []
groups (suc k) v =
    let rest = groups k (v / 128) in if ltb v 128 then v ∷ [] else (v % 128 + 128) ∷ rest

module _ {l : Leb128} (laws : Leb128Laws l) where
  write-groups_below : (k v : ℕ) → v < 128 ^ suc k → v < 2 ^ 64 → l.write v ≡ ok (groups k v)
  unfolding groups
  write-groups_below zero v h h' = laws.write_small v (omega arith)
  write-groups_below (suc k) v h h' = elim (Bool-cases (ltb v 128)) [
    | inl small ↦ rw small (laws.write_small v (ground arith))
    | inr large ↦ rw large (
        laws.write_large v (groups k (v / 128)) (ground arith) h'
          (write-groups_below k (v / 128) (omega arith) (omega arith)))
  ]

  pub write-groups : (v : ℕ) → v < 2 ^ 64 → l.write v ≡ ok (groups 9 v)
  write-groups v h = write-groups_below 9 v (omega arith) h

pub length-groups : (k v : ℕ) → (1 ≤ length (groups k v)) × (length (groups k v) ≤ k + 1)
unfolding groups
length-groups zero v = omega arith
length-groups (suc k) v = ground (arith, length-groups k (v / 128))
