-- ===== src/Streaming/Read/Progress.antt =====
-- Every frame that is read takes at least its opcode off the stream.
use nerw_rpc.Prelude.{
  ℕ, zero, suc, ◌+◌, ◌/◌, ◌%◌, ◌≤◌, ◌<◌, List, ◌++◌, ◌≡◌, sym, ap, arith, some, Bool, true, false,
  Bool-cases, if◌then◌else◌, inl, inr, ltb, leb, ◌==◌, length, take, drop, take-append-drop,
  length-take, length-drop,
}
use nerw_rpc.Prelude.Text.{Text, utf8, hex2}
use nerw_rpc.Result.{ok, err, map_err}
use nerw_rpc.Error.{RpcError, RpcResult, malformed_frame}
use nerw_rpc.Wire.{
  max_streaming_payload_len, opcode_streaming_open_request, opcode_streaming_open_response,
  opcode_streaming_request_chunk, opcode_streaming_response_chunk, opcode_streaming_request_end,
  opcode_streaming_response_end, opcode_streaming_error,
}
use nerw_rpc.Io.{Io, ◌>>=◌, lift, or_else, Io-cases}
use nerw_rpc.External.Quic.{
  RecvStream, RecvLaws, ReadExactError, finished_early, closed_stream, read_error,
}
use nerw_rpc.External.Postcard.{Postcard}
use nerw_rpc.Streaming.{StreamingFrame, Codecs}
use nerw_rpc.Streaming.Read.{
  first_byte, varint_loop, read_varint_u64, read_body, read_length_prefixed, read_encoded,
  read_chunk, read_streaming_frame, classify_eof_or_error, read_streaming_frame_after_opcode,
}

module _ {R : Type 0} {recv : RecvStream R} (laws : RecvLaws recv) where
  -- A successful read leaves no more than it found.
  abbrev pub Shrinks : {A : Type 0} → Io R A → Type 0
  Shrinks {A} m =
      (r s : R) (a : A) → m r ≡ (ok a, s) → length (laws.pending s) ≤ length (laws.pending r)

  pub read_exact-ok :
      (n : ℕ) (r s : R) (bytes : List ℕ)
      → recv.read_exact n r ≡ (ok bytes, s)
      → length (laws.pending s) + n ≡ length (laws.pending r)
  read_exact-ok n r s bytes h = elim (Bool-cases (leb n (length (laws.pending r)))) [
    | inl enough ↦
        let len : length (take n (laws.pending r)) ≡ n =
          ground (arith, length-take n (laws.pending r)) in
        let (t, e, p) =
          laws.read_exact-pending (take n (laws.pending r)) (drop n (laws.pending r)) r
            (sym (take-append-drop n (laws.pending r))) in
        let same : s ≡ t = cc (rw len at e) in
        rw (same, p) (ground (arith, length-drop n (laws.pending r)))
    | inr short ↦ let (t, e) = laws.read_exact-short n r (ground arith) in cc
  ]

  lift-Shrinks : {A : Type 0} (x : RpcResult A) → Shrinks (lift x)
  lift-Shrinks x r s a h = let same : r ≡ s = ap (λ y. y.1) h in rw same (omega arith)

  bind-Shrinks :
      {A B : Type 0} (m : Io R A) (f : A → Io R B)
      → Shrinks m
      → ((a : A) → Shrinks (f a))
      → Shrinks (m >>= f)
  bind-Shrinks m f hm hf r s b h = elim (Io-cases (m r)) [
    | inl (a, t, e) ↦ omega (arith, hm r t a e, hf a t s b (rw e at h))
    | inr (x, t, e) ↦ cc
  ]

  read-Shrinks : (n : ℕ) (f : ReadExactError → RpcError) → Shrinks (or_else (recv.read_exact n) f)
  read-Shrinks n f r s a h = elim (Io-cases (recv.read_exact n r)) [
    | inl (b, t, e) ↦ let same : t ≡ s = cc in rw (← same) (omega (arith, read_exact-ok n r t b e))
    | inr (x, t, e) ↦ cc
  ]

  if-Shrinks :
      {A : Type 0} (b : Bool) (m k : Io R A) → Shrinks m → Shrinks k → Shrinks (if b then m else k)
  if-Shrinks true m k hm hk = hm
  if-Shrinks false m k hm hk = hk

  module _ (show_read : ReadExactError → Text) where
    varint_loop-Shrinks :
        (left shift result : ℕ) → Shrinks (varint_loop recv show_read left shift result)
    unfolding varint_loop
    varint_loop-Shrinks zero shift result = lift-Shrinks _
    varint_loop-Shrinks (suc left) shift result = bind-Shrinks _ _ (read-Shrinks 1 _) (λ buf.
        bind-Shrinks _ _ (lift-Shrinks _) (λ sum.
          if-Shrinks (first_byte buf / 128 % 2 == 0) _ _ (lift-Shrinks (ok sum))
            (varint_loop-Shrinks left (suc shift) sum)))

    read_body-Shrinks : (n : ℕ) → Shrinks (read_body recv show_read n)
    unfolding read_body
    read_body-Shrinks n =
        if-Shrinks (ltb max_streaming_payload_len n) _ _ (lift-Shrinks _)
          (if-Shrinks (n == 0) _ _ (lift-Shrinks _) (read-Shrinks n _))

    read_length_prefixed-Shrinks : Shrinks (read_length_prefixed recv show_read)
    unfolding read_length_prefixed read_varint_u64
    read_length_prefixed-Shrinks =
        bind-Shrinks _ _ (bind-Shrinks _ _ (varint_loop-Shrinks 10 0 0) (λ len. lift-Shrinks _))
          read_body-Shrinks

    read_encoded-Shrinks :
        {A : Type 0} (p : Postcard A) (frame : A → StreamingFrame)
        → Shrinks (read_encoded recv show_read p frame)
    unfolding read_encoded
    read_encoded-Shrinks p frame =
        bind-Shrinks _
          (λ bytes.
            lift (map_err RpcError.codec (p.from_bytes bytes)) >>= λ body. lift (ok (frame body)))
          read_length_prefixed-Shrinks
          (λ bytes.
            bind-Shrinks _ (λ body. lift (ok (frame body))) (lift-Shrinks _)
              (λ body. lift-Shrinks _))

    read_chunk-Shrinks :
        (frame : List ℕ → StreamingFrame) → Shrinks (read_chunk recv show_read frame)
    unfolding read_chunk
    read_chunk-Shrinks frame =
        bind-Shrinks _ _ read_length_prefixed-Shrinks (λ bytes. lift-Shrinks _)

    module _ (c : Codecs) where
      pub after_opcode-Shrinks :
          (opcode : ℕ) → Shrinks (read_streaming_frame_after_opcode recv show_read c opcode)
      unfolding read_streaming_frame_after_opcode
      after_opcode-Shrinks opcode =
          if-Shrinks (opcode == opcode_streaming_open_request) _ _
            (read_encoded-Shrinks c.open_request StreamingFrame.open_request)
            (if-Shrinks (opcode == opcode_streaming_open_response) _ _
              (read_encoded-Shrinks c.open_response StreamingFrame.open_response)
              (if-Shrinks (opcode == opcode_streaming_request_chunk) _ _
                (read_chunk-Shrinks StreamingFrame.request_chunk)
                (if-Shrinks (opcode == opcode_streaming_response_chunk) _ _
                  (read_chunk-Shrinks StreamingFrame.response_chunk)
                  (if-Shrinks (opcode == opcode_streaming_request_end) _ _
                    (lift-Shrinks (ok StreamingFrame.request_end))
                    (if-Shrinks (opcode == opcode_streaming_response_end) _ _
                      (lift-Shrinks (ok StreamingFrame.response_end))
                      (if-Shrinks (opcode == opcode_streaming_error) _ _
                        (read_encoded-Shrinks c.error StreamingFrame.error)
                        (lift-Shrinks (
                          err (
                            malformed_frame
                              (utf8 "unexpected streaming opcode 0x" ++ hex2 opcode))))))))))

      classify-some :
          (e : ReadExactError) (f : StreamingFrame) (m n : ℕ)
          → classify_eof_or_error recv show_read c e ≡ ok (some f)
          → m < n
      classify-some (finished_early zero) f m n h = cc
      classify-some (finished_early (suc k)) f m n h = cc
      classify-some closed_stream f m n h = cc
      classify-some (read_error x) f m n h = cc

      -- Whatever bytes the peer sent, a frame that is read leaves fewer of them.
      pub read_streaming_frame-progress :
          (r s : R) (f : StreamingFrame)
          → read_streaming_frame recv show_read c r ≡ (ok (some f), s)
          → length (laws.pending s) < length (laws.pending r)
      unfolding read_streaming_frame
      read_streaming_frame-progress r s f h = elim (Io-cases (recv.read_exact 1 r)) [
        | inr (e, t, d) ↦ classify-some e f _ _ (ap (λ y. y.0) (rw d at h))
        | inl (buf, t, d) ↦
            let rest : length (laws.pending s) ≤ length (laws.pending t) =
              bind-Shrinks (read_streaming_frame_after_opcode recv show_read c (first_byte buf))
                (λ frame. lift (ok (some frame))) (after_opcode-Shrinks (first_byte buf))
                (λ frame. lift-Shrinks (ok (some frame))) t s (some f) (rw d at h) in
            omega (arith, rest, read_exact-ok 1 r t buf d)
      ]
