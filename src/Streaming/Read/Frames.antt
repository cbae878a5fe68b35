-- ===== src/Streaming/Read/Frames.antt =====
-- Every frame that a writer sends is read back.
use nerw_rpc.Prelude.{
  ℕ, ◌^◌, ◌≤◌, List, [], ◌∷◌, ◌++◌, append_assoc, append-nil, ◌≡◌, refl, ◌∙◌, arith, length, none,
  some, true, false, ◌==◌, ltb,
}
use nerw_rpc.Prelude.Text.{Text}
use nerw_rpc.Result.{ok}
use nerw_rpc.Wire.{max_streaming_payload_len}
use nerw_rpc.External.Leb128.{groups}
use nerw_rpc.External.Quic.{RecvStream, RecvLaws, ReadExactError}
use nerw_rpc.External.Postcard.{Postcard, PostcardLaws}
use nerw_rpc.Streaming.{StreamingFrame, Codecs}
use nerw_rpc.Streaming.Format.{CodecsLaws, opcode_of, body_of, IsFrameOf, bare, prefixed}
use nerw_rpc.Streaming.Read.{
  read_length_prefixed, read_body, read_encoded, read_chunk, read_streaming_frame,
  read_streaming_frame_after_opcode,
}
use nerw_rpc.Streaming.Read.Varint.{read_varint_u64-groups}

module _ {R : Type 0} {recv : RecvStream R} (laws : RecvLaws recv)
    (show_read : ReadExactError → Text) where
  read_body-pending :
      (body rest : List ℕ) (r : R)
      → length body ≤ max_streaming_payload_len
      → laws.pending r ≡ body ++ rest
      → (s : R) × (read_body recv show_read (length body) r ≡ (ok body, s))
        × (laws.pending s ≡ rest)
  unfolding read_body
  read_body-pending [] rest r h p = (r, refl, p)
  read_body-pending (b ∷ body) rest r h p =
      let (s, e, q) = laws.read_exact-pending (b ∷ body) rest r p in
      let small : ltb max_streaming_payload_len (length (b ∷ body)) ≡ false = ground arith in
      let some_byte : (length (b ∷ body) == 0) ≡ false = ground arith in
      (s, rw (small, some_byte, e) refl, q)

  read_length_prefixed-groups :
      (body rest : List ℕ) (r : R)
      → length body ≤ max_streaming_payload_len
      → laws.pending r ≡ groups 9 (length body) ++ (body ++ rest)
      → (s : R) × (read_length_prefixed recv show_read r ≡ (ok body, s)) × (laws.pending s ≡ rest)
  unfolding read_length_prefixed
  read_length_prefixed-groups body rest r h p =
      let (s, e, q) =
        read_varint_u64-groups laws show_read (length body) (body ++ rest) r (omega arith) p in
      let (t, f, u) = read_body-pending body rest s h q in
      let fits : ltb (length body) (2 ^ 64) ≡ true = ground arith in (t, rw (e, fits, f) refl, u)

  read_chunk-groups :
      (frame : List ℕ → StreamingFrame) (body rest : List ℕ) (r : R)
      → length body ≤ max_streaming_payload_len
      → laws.pending r ≡ groups 9 (length body) ++ (body ++ rest)
      → (s : R) × (read_chunk recv show_read frame r ≡ (ok (frame body), s))
        × (laws.pending s ≡ rest)
  unfolding read_chunk
  read_chunk-groups frame body rest r h p =
      let (s, e, q) = read_length_prefixed-groups body rest r h p in (s, rw e refl, q)

  read_encoded-groups :
      {A : Type 0} (c : Postcard A) (frame : A → StreamingFrame) (a : A) (body rest : List ℕ)
      (r : R)
      → PostcardLaws c
      → c.to_allocvec a ≡ ok body
      → length body ≤ max_streaming_payload_len
      → laws.pending r ≡ groups 9 (length body) ++ (body ++ rest)
      → (s : R) × (read_encoded recv show_read c frame r ≡ (ok (frame a), s))
        × (laws.pending s ≡ rest)
  unfolding read_encoded
  read_encoded-groups c frame a body rest r k w h p =
      let (s, e, q) = read_length_prefixed-groups body rest r h p in
      let back : c.from_bytes body ≡ ok a = rw (append-nil body) at (k.from-to a body [] w) in
      (s, rw (e, back) refl, q)

module _ {R : Type 0} {recv : RecvStream R} (laws : RecvLaws recv)
    (show_read : ReadExactError → Text) {c : Codecs} (codecs_laws : CodecsLaws c) where
  pub after_opcode-prefixed :
      (f : StreamingFrame) (body rest : List ℕ) (r : R)
      → body_of c f ≡ some (ok body)
      → length body ≤ max_streaming_payload_len
      → laws.pending r ≡ groups 9 (length body) ++ (body ++ rest)
      → (s : R) × (read_streaming_frame_after_opcode recv show_read c (opcode_of f) r ≡ (ok f, s))
        × (laws.pending s ≡ rest)
  unfolding read_streaming_frame_after_opcode
  after_opcode-prefixed (StreamingFrame.open_request b) body rest r e h p =
      read_encoded-groups laws show_read c.open_request StreamingFrame.open_request b body rest r
        codecs_laws.open_request (cc) h p
  after_opcode-prefixed (StreamingFrame.open_response b) body rest r e h p =
      read_encoded-groups laws show_read c.open_response StreamingFrame.open_response b body rest r
        codecs_laws.open_response (cc) h p
  after_opcode-prefixed (StreamingFrame.request_chunk bytes) body rest r e h p =
      let same : bytes ≡ body = cc in
      rw same (read_chunk-groups laws show_read StreamingFrame.request_chunk body rest r h p)
  after_opcode-prefixed (StreamingFrame.response_chunk bytes) body rest r e h p =
      let same : bytes ≡ body = cc in
      rw same (read_chunk-groups laws show_read StreamingFrame.response_chunk body rest r h p)
  after_opcode-prefixed StreamingFrame.request_end body rest r e h p = cc
  after_opcode-prefixed StreamingFrame.response_end body rest r e h p = cc
  after_opcode-prefixed (StreamingFrame.error b) body rest r e h p =
      read_encoded-groups laws show_read c.error StreamingFrame.error b body rest r
        codecs_laws.error (cc) h p

  after_opcode-bare :
      (f : StreamingFrame) (r : R)
      → body_of c f ≡ none
      → read_streaming_frame_after_opcode recv show_read c (opcode_of f) r ≡ (ok f, r)
  unfolding read_streaming_frame_after_opcode
  after_opcode-bare (StreamingFrame.open_request b) r e = cc
  after_opcode-bare (StreamingFrame.open_response b) r e = cc
  after_opcode-bare (StreamingFrame.request_chunk bytes) r e = cc
  after_opcode-bare (StreamingFrame.response_chunk bytes) r e = cc
  after_opcode-bare StreamingFrame.request_end r e = refl
  after_opcode-bare StreamingFrame.response_end r e = refl
  after_opcode-bare (StreamingFrame.error b) r e = cc

  -- A frame that is pending, whatever follows it, is read as it is, and what follows it is still
  -- to come.
  pub read_streaming_frame-pending :
      (f : StreamingFrame) (wire rest : List ℕ) (r : R)
      → IsFrameOf c f wire
      → laws.pending r ≡ wire ++ rest
      → (s : R) × (read_streaming_frame recv show_read c r ≡ (ok (some f), s))
        × (laws.pending s ≡ rest)
  unfolding read_streaming_frame
  read_streaming_frame-pending f _ rest r (bare e) p =
      let (s, d, q) = laws.read_exact-pending (opcode_of f ∷ []) rest r p in
      (s, rw (d, after_opcode-bare f s e) refl, q)
  read_streaming_frame-pending f _ rest r (prefixed {body} e h) p =
      let (s, d, q) =
        laws.read_exact-pending (opcode_of f ∷ []) ((groups 9 (length body) ++ body) ++ rest) r p in
      let (t, g, u) =
        after_opcode-prefixed f body rest s e h
          (q ∙ append_assoc (groups 9 (length body)) body rest) in
      (t, rw (d, g) refl, u)

  -- A stream that ends between two frames has a clean end.
  pub read_streaming_frame-end :
      (r : R)
      → laws.pending r ≡ []
      → (s : R) × (read_streaming_frame recv show_read c r ≡ (ok none, s))
  unfolding read_streaming_frame
  read_streaming_frame-end r p =
      let (s, e) = laws.read_exact-short 1 r (rw p (omega arith)) in (s, rw e (rw p refl))
