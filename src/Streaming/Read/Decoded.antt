-- ===== src/Streaming/Read/Decoded.antt =====
-- What a frame that is read carries, whatever the peer sends and however the stream fails.
use nerw_rpc.Prelude.{
  ℕ, zero, suc, ◌≤◌, List, [], ◌≡◌, refl, ap, arith, Option, none, some, Bool, true, false,
  if◌then◌else◌, inl, inr, ltb, ◌==◌, length,
}
use nerw_rpc.Prelude.Text.{Text}
use nerw_rpc.Result.{ok, map_err, map_err-eq-ok}
use nerw_rpc.Error.{RpcError, RpcResult}
use nerw_rpc.Wire.{
  max_streaming_payload_len, opcode_streaming_open_request, opcode_streaming_open_response,
  opcode_streaming_request_chunk, opcode_streaming_response_chunk, opcode_streaming_request_end,
  opcode_streaming_response_end, opcode_streaming_error,
}
use nerw_rpc.Io.{Io, ◌>>=◌, lift, or_else, Io-cases}
use nerw_rpc.External.Quic.{RecvStream, ReadExactError, finished_early, closed_stream, read_error}
use nerw_rpc.External.Postcard.{Postcard}
use nerw_rpc.Streaming.{StreamingFrame, Codecs}
use nerw_rpc.Streaming.Read.{
  first_byte, read_body, read_length_prefixed, read_encoded, read_chunk, read_streaming_frame,
  classify_eof_or_error, read_streaming_frame_after_opcode,
}

-- A value that a codec decodes of at most 8 MiB.
abbrev pub IsDecodedBy : {A : Type 0} → Postcard A → A → Type 0
IsDecodedBy p body =
    (bytes : List ℕ) × (length bytes ≤ max_streaming_payload_len) × (p.from_bytes bytes ≡ ok body)

-- The payload of a chunk is within the limit, and a typed body was decoded of bytes within the limit.
abbrev pub IsDecoded : Codecs → StreamingFrame → Type 0
IsDecoded c (StreamingFrame.open_request body) = IsDecodedBy c.open_request body
IsDecoded c (StreamingFrame.open_response body) = IsDecodedBy c.open_response body
IsDecoded c (StreamingFrame.request_chunk bytes) = length bytes ≤ max_streaming_payload_len
IsDecoded c (StreamingFrame.response_chunk bytes) = length bytes ≤ max_streaming_payload_len
IsDecoded c (StreamingFrame.error body) = IsDecodedBy c.error body
IsDecoded c StreamingFrame.request_end = Unit {0}
IsDecoded c StreamingFrame.response_end = Unit {0}

module _ {R : Type 0} where
  -- What a computation returns, if it does not fail.
  abbrev Gives : {A : Type 0} → (A → Type 0) → Io R A → Type 0
  Gives {A} P m = (r s : R) (a : A) → m r ≡ (ok a, s) → P a

  lift-Gives :
      {A : Type 0} {P : A → Type 0} (x : RpcResult A)
      → ((a : A) → x ≡ ok a → P a)
      → Gives P (lift x)
  lift-Gives x h r s a e = h a (ap (λ y. y.0) e)

  bind-Gives :
      {A B : Type 0} {P : A → Type 0} {Q : B → Type 0} (m : Io R A) (f : A → Io R B)
      → Gives P m
      → ((a : A) → P a → Gives Q (f a))
      → Gives Q (m >>= f)
  bind-Gives m f hm hf r s b h = elim (Io-cases (m r)) [
    | inl (a, t, e) ↦ hf a (hm r t a e) t s b (rw e at h)
    | inr (x, t, e) ↦ cc
  ]

  if-Gives :
      {A : Type 0} {P : A → Type 0} (b : Bool) (m k : Io R A)
      → (b ≡ true → Gives P m)
      → (b ≡ false → Gives P k)
      → Gives P (if b then m else k)
  if-Gives true m k hm hk = hm refl
  if-Gives false m k hm hk = hk refl

-- `read_exact` fills its buffer or fails.
module _ {R : Type 0} (recv : RecvStream R)
    (read_exact_fills : (n : ℕ) (r s : R) (bytes : List ℕ)
      → recv.read_exact n r ≡ (ok bytes, s)
      → length bytes ≡ n)
    (show_read : ReadExactError → Text) where
  abbrev IsWithinLimit : List ℕ → Type 0
  IsWithinLimit bytes = length bytes ≤ max_streaming_payload_len

  read_exact-Gives :
      (n : ℕ) (f : ReadExactError → RpcError)
      → n ≤ max_streaming_payload_len
      → Gives IsWithinLimit (or_else (recv.read_exact n) f)
  read_exact-Gives n f small r s bytes h = elim (Io-cases (recv.read_exact n r)) [
    | inl (b, t, e) ↦
        let same : b ≡ bytes = cc (rw e at h) in
        omega (arith, read_exact_fills n r t b e, ap length same)
    | inr (x, t, e) ↦ cc (rw e at h)
  ]

  read_body-Gives : (n : ℕ) → Gives IsWithinLimit (read_body recv show_read n)
  unfolding read_body
  read_body-Gives n =
      if-Gives (ltb max_streaming_payload_len n) _ _ (λ long. lift-Gives _ (λ a e. cc))
        (λ short.
          if-Gives (n == 0) _ _
            (λ empty. lift-Gives (ok []) (λ a e. let same : a ≡ [] = cc e in rw same (omega arith)))
            (λ some_bytes. read_exact-Gives n _ (ground arith)))

  read_length_prefixed-Gives : Gives IsWithinLimit (read_length_prefixed recv show_read)
  unfolding read_length_prefixed
  read_length_prefixed-Gives =
      bind-Gives {P = λ n. Unit {0}} _ (read_body recv show_read) (λ r s a e. tt)
        (λ n any. read_body-Gives n)

  read_encoded-Gives :
      {A : Type 0} (P : StreamingFrame → Type 0) (p : Postcard A) (frame : A → StreamingFrame)
      → ((body : A) → IsDecodedBy p body → P (frame body))
      → Gives P (read_encoded recv show_read p frame)
  unfolding read_encoded
  read_encoded-Gives P p frame h =
      bind-Gives _
        (λ bytes.
          lift (map_err RpcError.codec (p.from_bytes bytes)) >>= λ body. lift (ok (frame body)))
        read_length_prefixed-Gives
        (λ bytes small.
          bind-Gives {P = IsDecodedBy p} _ (λ body. lift (ok (frame body)))
            (lift-Gives _ (λ body e. (bytes, small, map_err-eq-ok _ _ e)))
            (λ body d.
              lift-Gives (ok (frame body))
                (λ f e. let same : f ≡ frame body = cc e in rw same (h body d))))

  read_chunk-Gives :
      (P : StreamingFrame → Type 0) (frame : List ℕ → StreamingFrame)
      → ((bytes : List ℕ) → IsWithinLimit bytes → P (frame bytes))
      → Gives P (read_chunk recv show_read frame)
  unfolding read_chunk
  read_chunk-Gives P frame h = bind-Gives _ _ read_length_prefixed-Gives (λ bytes small.
      lift-Gives (ok (frame bytes))
        (λ f e. let same : f ≡ frame bytes = cc e in rw same (h bytes small)))

  module _ (c : Codecs) where
    bare-Gives :
        (frame : StreamingFrame) → IsDecoded c frame → Gives (IsDecoded c) (lift {S = R} (ok frame))
    bare-Gives frame is = lift-Gives (ok frame) (λ f e. let same : f ≡ frame = cc e in rw same is)

    after_opcode-Gives :
        (opcode : ℕ)
        → Gives (IsDecoded c) (read_streaming_frame_after_opcode recv show_read c opcode)
    unfolding read_streaming_frame_after_opcode
    after_opcode-Gives opcode =
        if-Gives (opcode == opcode_streaming_open_request) _ _
          (λ is.
            read_encoded-Gives (IsDecoded c) c.open_request StreamingFrame.open_request
              (λ body d. d))
          (λ no.
            if-Gives (opcode == opcode_streaming_open_response) _ _
              (λ is.
                read_encoded-Gives (IsDecoded c) c.open_response StreamingFrame.open_response
                  (λ body d. d))
              (λ no.
                if-Gives (opcode == opcode_streaming_request_chunk) _ _
                  (λ is. read_chunk-Gives (IsDecoded c) StreamingFrame.request_chunk (λ bytes d. d))
                  (λ no.
                    if-Gives (opcode == opcode_streaming_response_chunk) _ _
                      (λ is.
                        read_chunk-Gives (IsDecoded c) StreamingFrame.response_chunk (λ bytes d. d))
                      (λ no.
                        if-Gives (opcode == opcode_streaming_request_end) _ _
                          (λ is. bare-Gives StreamingFrame.request_end tt)
                          (λ no.
                            if-Gives (opcode == opcode_streaming_response_end) _ _
                              (λ is. bare-Gives StreamingFrame.response_end tt)
                              (λ no.
                                if-Gives (opcode == opcode_streaming_error) _ _
                                  (λ is.
                                    read_encoded-Gives (IsDecoded c) c.error StreamingFrame.error
                                      (λ body d. d))
                                  (λ no. lift-Gives _ (λ a e. absurd (cc e)))))))))

    -- What an optional frame carries.
    abbrev IsSomeDecoded : Option StreamingFrame → Type 0
    IsSomeDecoded none = Unit {0}
    IsSomeDecoded (some f) = IsDecoded c f

    some-Gives :
        (frame : StreamingFrame)
        → IsDecoded c frame
        → Gives IsSomeDecoded (lift {S = R} (ok (some frame)))
    some-Gives frame is =
        lift-Gives (ok (some frame)) (λ o e. let same : o ≡ some frame = cc e in rw same is)

    classify-some :
        (e : ReadExactError) (f : StreamingFrame)
        → classify_eof_or_error recv show_read c e ≡ ok (some f)
        → IsDecoded c f
    classify-some (finished_early zero) f h = absurd (cc h)
    classify-some (finished_early (suc k)) f h = absurd (cc h)
    classify-some closed_stream f h = absurd (cc h)
    classify-some (read_error x) f h = absurd (cc h)

    -- Whatever the peer sends and however the stream fails, so long as `read_exact` fills its buffer
    -- or fails: a chunk that is read is at most 8 MiB, and the body of any other frame is what
    -- postcard decodes of at most 8 MiB.
    pub read_streaming_frame-IsDecoded :
        (r s : R) (f : StreamingFrame)
        → read_streaming_frame recv show_read c r ≡ (ok (some f), s)
        → IsDecoded c f
    unfolding read_streaming_frame
    read_streaming_frame-IsDecoded r s f h = elim (Io-cases (recv.read_exact 1 r)) [
      | inr (e, t, d) ↦ classify-some e f (ap (λ y. y.0) (rw d at h))
      | inl (buf, t, d) ↦
          bind-Gives (read_streaming_frame_after_opcode recv show_read c (first_byte buf))
            (λ frame. lift (ok (some frame))) (after_opcode-Gives (first_byte buf)) some-Gives t s
            (some f) (rw d at h)
    ]
