-- ===== src/Wire/StreamIds.antt =====
-- src/wire.rs: the round trip of stream ids.
use nerw_rpc.Prelude.{ℕ, ◌^◌, ◌≤◌, ◌<◌, List, ◌++◌, ◌≡◌, refl, sym, ap, ◌∙◌, arith}
use nerw_rpc.Prelude.{length, take, drop, take-append-drop, length-drop, drop-length_append}
use nerw_rpc.Result.{ok, map_err, >>=-eq-ok, map_err-eq-ok}
use nerw_rpc.External.Leb128.{Leb128, Leb128Laws, groups, write-groups, length-groups}
use nerw_rpc.Wire.{encode_stream_id, decode_stream_id}

module _ {l : Leb128} (laws : Leb128Laws l) where
  -- `decode_stream_id` reads back every `u64` that `encode_stream_id` wrote, in 1 to 10 bytes
  -- behind whatever the buffer held, and leaves what follows it.
  pub decode-encode_stream_id :
      (id : ℕ) (buf : List ℕ)
      → id < 2 ^ 64
      → (wire : List ℕ) × (encode_stream_id l id buf ≡ ok (buf ++ wire))
        × (1 ≤ length wire)
        × (length wire ≤ 10)
        × ((rest : List ℕ) → decode_stream_id l (wire ++ rest) ≡ ok (id, rest))
  unfolding encode_stream_id decode_stream_id
  decode-encode_stream_id id buf h =
      let g = groups 9 id in
      let (lo, hi) = length-groups 9 id in
      let e = write-groups laws id h in
      (
        g,
        rw e refl,
        lo,
        hi,
        λ rest. rw (laws.read-write id g rest h e, drop-length_append g rest) refl,
      )

  stream_id_parts :
      (input : List ℕ) (v p id : ℕ) (rest : List ℕ)
      → l.read input ≡ ok (v, p)
      → v ≡ id
      → drop p input ≡ rest
      → (q : ℕ) × (l.read input ≡ ok (id, q))
        × (id < 2 ^ 64)
        × (length rest < length input)
        × (input ≡ take q input ++ rest)
  stream_id_parts input v p id rest read is_id is_rest =
      let (fits, took, within) = laws.read_takes input v p read in
      (
        p,
        read ∙ rw is_id refl,
        omega arith,
        omega (arith, ap length is_rest, length-drop p input),
        sym (take-append-drop p input) ∙ rw is_rest refl,
      )

  -- A successful decoding gives a `u64` and a proper suffix of the input.
  decode_stream_id_sound :
      (input : List ℕ) (id : ℕ) (rest : List ℕ)
      → decode_stream_id l input ≡ ok (id, rest)
      → (p : ℕ) × (l.read input ≡ ok (id, p))
        × (id < 2 ^ 64)
        × (length rest < length input)
        × (input ≡ take p input ++ rest)
  unfolding decode_stream_id
  decode_stream_id_sound input id rest h =
      let ((v, p), e, h') = >>=-eq-ok (map_err _ (l.read input)) _ h in
      stream_id_parts input v p id rest (map_err-eq-ok _ _ e) (cc h') (cc h')
