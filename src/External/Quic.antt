-- ===== src/External/Quic.antt =====
-- The halves of an iroh bidirectional stream as parameters, with what QUIC documents.
use nerw_rpc.Prelude.{ℕ, ◌≤◌, ◌<◌, List, [], ◌++◌, ◌≡◌, Bool, true, false, length}
use nerw_rpc.Prelude.Text.{Text}
use nerw_rpc.Result.{Result, ok, err}

-- `iroh::endpoint::ReadExactError`; a `ReadError` other than `ClosedStream` is its `Display` text.
pub data ReadExactError : Type 0 where
  finished_early : ℕ → ReadExactError
  closed_stream : ReadExactError
  read_error : Text → ReadExactError

-- A receiving half in state `R`: `read_exact` for a buffer of that size, `read_to_end` with its
-- limit. A failed call leaves the half in some state as well.
pub record RecvStream (R : Type 0) : Type 0 where
  pub read_exact : ℕ → R → Result ReadExactError (List ℕ) × R
  pub read_to_end : ℕ → R → Result Text (List ℕ) × R

pub record SendStream (S : Type 0) : Type 0 where
  pub write_all : List ℕ → S → Result Text (Unit {0}) × S
  pub finish : S → Result Text (Unit {0}) × S

-- A stream whose peer wrote some bytes and finished, on a connection that delivers them all:
-- reads take them in order, the end is reported as such, and the limit is kept.
pub record RecvLaws {R : Type 0} (q : RecvStream R) : Type 0 where
  pub pending : R → List ℕ
  pub read_exact-pending :
      (a b : List ℕ) (r : R)
      → pending r ≡ a ++ b
      → (s : R) × (q.read_exact (length a) r ≡ (ok a, s)) × (pending s ≡ b)
  pub read_exact-short :
      (n : ℕ) (r : R)
      → length (pending r) < n
      → (s : R) × (q.read_exact n r ≡ (err (finished_early (length (pending r))), s))
  pub read_to_end-pending :
      (limit : ℕ) (r : R)
      → length (pending r) ≤ limit
      → (s : R) × (q.read_to_end limit r ≡ (ok (pending r), s)) × (pending s ≡ [])
  pub read_to_end-long :
      (limit : ℕ) (r : R)
      → limit < length (pending r)
      → (s : R) × (e : Text) × (q.read_to_end limit r ≡ (err e, s))

-- A stream on a live connection that its owner has not finished takes all that is written.
pub record SendLaws {S : Type 0} (q : SendStream S) : Type 0 where
  pub written : S → List ℕ
  pub is_open : S → Bool
  pub write_all-written :
      (bytes : List ℕ) (s : S)
      → is_open s ≡ true
      → (t : S) × (q.write_all bytes s ≡ (ok tt, t))
        × (written t ≡ written s ++ bytes)
        × (is_open t ≡ true)
  pub finish-written :
      (s : S)
      → is_open s ≡ true
      → (t : S) × (q.finish s ≡ (ok tt, t)) × (written t ≡ written s) × (is_open t ≡ false)
