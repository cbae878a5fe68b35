-- ===== src/Tests/Instances/Quic.antt =====
-- Streams in memory: what is pending, and what was written.
use nerw_rpc.Prelude.{
  ℕ, List, [], ◌++◌, ◌≡◌, refl, arith, leb, le→leb, if◌then◌else◌, Bool, true, false, length, take,
  drop, length-append, take-length_append, drop-length_append,
}
use nerw_rpc.Prelude.Text.{Text, utf8}
use nerw_rpc.Result.{Result, ok, err}
use nerw_rpc.External.Quic.{RecvStream, RecvLaws, SendStream, SendLaws, finished_early}

abbrev pub recv : RecvStream (List ℕ)
recv = record {
  read_exact = λ n s.
      if leb n (length s) then (ok (take n s), drop n s) else (err (finished_early (length s)), []);
  read_to_end =
      λ limit s. if leb (length s) limit then (ok s, []) else (err (utf8 "stream too long"), s);
}

pub fits : (a b : List ℕ) → leb (length a) (length (a ++ b)) ≡ true
fits a b = ground (arith, length-append a b)

abbrev pub recv_laws : RecvLaws recv
recv_laws = record {
  pending = λ s. s;
  read_exact-pending =
      λ a b s e. (b, rw (e, fits a b, take-length_append a b, drop-length_append a b) refl, refl);
  read_exact-short =
      λ n s h. let long : leb n (length s) ≡ false = ground arith in ([], rw long refl);
  read_to_end-pending = λ limit s h. ([], rw (le→leb (length s) limit h) refl, refl);
  read_to_end-long = λ limit s h.
      let long : leb (length s) limit ≡ false = ground arith in
      (s, utf8 "stream too long", rw long refl);
}

-- What was written, and whether the stream is still open.
pub record Sent : Type 0 where
  pub bytes : List ℕ
  pub live : Bool

abbrev pub write : List ℕ → Sent → Result Text (Unit {0}) × Sent
write more s =
    if s.live
    then (ok tt, record { bytes = s.bytes ++ more; live = true })
    else (err (utf8 "closed stream"), s)

abbrev pub close : Sent → Result Text (Unit {0}) × Sent
close s =
    if s.live
    then (ok tt, record { bytes = s.bytes; live = false })
    else (err (utf8 "closed stream"), s)

abbrev pub send : SendStream Sent
send = record { write_all = write; finish = close }

abbrev pub fresh_sent : Sent
fresh_sent = record { bytes = []; live = true }

abbrev pub send_laws : SendLaws send
send_laws = record {
  written = λ s. s.bytes;
  is_open = λ s. s.live;
  write_all-written =
      λ more s o. (record { bytes = s.bytes ++ more; live = true }, rw o refl, refl, refl);
  finish-written = λ s o. (record { bytes = s.bytes; live = false }, rw o refl, refl, refl);
}
