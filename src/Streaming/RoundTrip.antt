-- ===== src/Streaming/RoundTrip.antt =====
-- Frames from the writer to the reader.
use nerw_rpc.Prelude.{
  ℕ, ◌^◌, ◌<◌, List, [], ◌∷◌, ◌++◌, ◌≡◌, refl, arith, length, none, some, true, ltb,
}
use nerw_rpc.Prelude.Text.{Text, utf8, decimal}
use nerw_rpc.Result.{ok, err}
use nerw_rpc.Error.{malformed_frame, RpcResult}
use nerw_rpc.Wire.{max_streaming_payload_len}
use nerw_rpc.Io.{Io}
use nerw_rpc.External.Leb128.{Leb128, Leb128Laws, groups, write-groups}
use nerw_rpc.External.Quic.{RecvStream, RecvLaws, SendStream, SendLaws, ReadExactError}
use nerw_rpc.External.Postcard.{Postcard}
use nerw_rpc.Streaming.{StreamingFrame, Codecs}
use nerw_rpc.Streaming.Format.{CodecsLaws, opcode_of, body_of, IsFrameOf, bare, prefixed}
use nerw_rpc.Streaming.Read.{read_streaming_frame, read_length_prefixed, read_body}
use nerw_rpc.Streaming.Read.Varint.{read_varint_u64-groups}
use nerw_rpc.Streaming.Read.Frames.{read_streaming_frame-pending}
use nerw_rpc.Streaming.Write.{
  write_single_opcode, write_length_prefixed, write_encoded, write_request_chunk,
  write_response_chunk, write_request_end, write_response_end, write_open_request,
  write_open_response, write_streaming_error,
}

-- The writer of each kind of frame.
abbrev pub write_frame : {S : Type 0} → SendStream S → Leb128 → Codecs → StreamingFrame → Io S Unit
write_frame q l c (StreamingFrame.open_request b) = write_open_request q l c b
write_frame q l c (StreamingFrame.open_response b) = write_open_response q l c b
write_frame q l c (StreamingFrame.request_chunk bytes) = write_request_chunk q l bytes
write_frame q l c (StreamingFrame.response_chunk bytes) = write_response_chunk q l bytes
write_frame q l c StreamingFrame.request_end = write_request_end q
write_frame q l c StreamingFrame.response_end = write_response_end q
write_frame q l c (StreamingFrame.error b) = write_streaming_error q l c b

module _ {S : Type 0} {send : SendStream S} (sends : SendLaws send) {l : Leb128}
    (laws : Leb128Laws l) where
  -- `wire` was written and the stream is still open.
  abbrev pub Wrote : List ℕ → S → RpcResult (Unit {0}) × S → Type 0
  Wrote wire s out =
      (t : S) × (out ≡ (ok tt, t))
      × (sends.written t ≡ sends.written s ++ wire)
      × (sends.is_open t ≡ true)

  write_single_opcode-Wrote :
      (opcode : ℕ) (s : S)
      → sends.is_open s ≡ true
      → Wrote (opcode ∷ []) s (write_single_opcode send opcode s)
  unfolding write_single_opcode
  write_single_opcode-Wrote opcode s o =
      let (t, e, w, u) = sends.write_all-written (opcode ∷ []) s o in (t, rw e refl, w, u)

  write_length_prefixed-Wrote :
      (opcode : ℕ) (body : List ℕ) (s : S)
      → length body < 2 ^ 64
      → sends.is_open s ≡ true
      → Wrote
          (opcode ∷ (groups 9 (length body) ++ body))
          s
          (write_length_prefixed send l opcode body s)
  unfolding write_length_prefixed
  write_length_prefixed-Wrote opcode body s h o =
      let (t, e, w, u) = sends.write_all-written (opcode ∷ (groups 9 (length body) ++ body)) s o in
      (t, rw (write-groups laws (length body) h, e) refl, w, u)

  write_encoded-Wrote :
      {A : Type 0} (p : Postcard A) (opcode : ℕ) (a : A) (body : List ℕ) (s : S)
      → p.to_allocvec a ≡ ok body
      → length body < 2 ^ 64
      → sends.is_open s ≡ true
      → Wrote (opcode ∷ (groups 9 (length body) ++ body)) s (write_encoded send l p opcode a s)
  unfolding write_encoded
  write_encoded-Wrote p opcode a body s e h o = rw e (write_length_prefixed-Wrote opcode body s h o)

  module _ (c : Codecs) where
    prefixed-Wrote :
        (f : StreamingFrame) (body : List ℕ) (s : S)
        → body_of c f ≡ some (ok body)
        → length body < 2 ^ 64
        → sends.is_open s ≡ true
        → Wrote (opcode_of f ∷ (groups 9 (length body) ++ body)) s (write_frame send l c f s)
    prefixed-Wrote (StreamingFrame.open_request b) body s e h o =
        write_encoded-Wrote c.open_request _ b body s (cc) h o
    prefixed-Wrote (StreamingFrame.open_response b) body s e h o =
        write_encoded-Wrote c.open_response _ b body s (cc) h o
    prefixed-Wrote (StreamingFrame.request_chunk bytes) body s e h o =
        let same : bytes ≡ body = cc in rw same (write_length_prefixed-Wrote _ body s h o)
    prefixed-Wrote (StreamingFrame.response_chunk bytes) body s e h o =
        let same : bytes ≡ body = cc in rw same (write_length_prefixed-Wrote _ body s h o)
    prefixed-Wrote StreamingFrame.request_end body s e h o = cc
    prefixed-Wrote StreamingFrame.response_end body s e h o = cc
    prefixed-Wrote (StreamingFrame.error b) body s e h o =
        write_encoded-Wrote c.error _ b body s (cc) h o

    bare-Wrote :
        (f : StreamingFrame) (s : S)
        → body_of c f ≡ none
        → sends.is_open s ≡ true
        → Wrote (opcode_of f ∷ []) s (write_frame send l c f s)
    bare-Wrote (StreamingFrame.open_request b) s e o = cc
    bare-Wrote (StreamingFrame.open_response b) s e o = cc
    bare-Wrote (StreamingFrame.request_chunk bytes) s e o = cc
    bare-Wrote (StreamingFrame.response_chunk bytes) s e o = cc
    bare-Wrote StreamingFrame.request_end s e o = write_single_opcode-Wrote _ s o
    bare-Wrote StreamingFrame.response_end s e o = write_single_opcode-Wrote _ s o
    bare-Wrote (StreamingFrame.error b) s e o = cc

    pub write_frame-Wrote :
        (f : StreamingFrame) (wire : List ℕ) (s : S)
        → IsFrameOf c f wire
        → sends.is_open s ≡ true
        → Wrote wire s (write_frame send l c f s)
    write_frame-Wrote f _ s (bare e) o = bare-Wrote f s e o
    write_frame-Wrote f _ s (prefixed {body} e h) o = prefixed-Wrote f body s e (omega arith) o

module _ {S R : Type 0} {send : SendStream S} (sends : SendLaws send) {recv : RecvStream R}
    (recvs : RecvLaws recv) {l : Leb128} (laws : Leb128Laws l) (show_read : ReadExactError → Text)
    {c : Codecs} (codecs_laws : CodecsLaws c) where
  -- Every frame with a body of at most 8 MiB that postcard encodes: its writer appends exactly its
  -- bytes to an open stream, and wherever these bytes are pending, whatever follows them, the reader
  -- returns the frame and leaves what follows.
  pub read-write_frame :
      (f : StreamingFrame) (wire rest : List ℕ) (s : S) (r : R)
      → IsFrameOf c f wire
      → sends.is_open s ≡ true
      → recvs.pending r ≡ wire ++ rest
      → Wrote sends laws wire s (write_frame send l c f s)
        × ((t : R) × (read_streaming_frame recv show_read c r ≡ (ok (some f), t))
            × (recvs.pending t ≡ rest))
  read-write_frame f wire rest s r i o p = (
    write_frame-Wrote sends laws c f wire s i o,
    read_streaming_frame-pending recvs show_read codecs_laws f wire rest r i p,
  )

  -- The writer has no limit of its own: a chunk above 8 MiB is written in full, and the reader
  -- refuses it by its length, before it takes any byte of the body.
  pub read-write_oversized :
      (opcode : ℕ) (body rest : List ℕ) (s : S) (r : R)
      → max_streaming_payload_len < length body
      → length body < 2 ^ 64
      → sends.is_open s ≡ true
      → recvs.pending r ≡ groups 9 (length body) ++ (body ++ rest)
      → Wrote sends laws
          (opcode ∷ (groups 9 (length body) ++ body))
          s
          (write_length_prefixed send l opcode body s)
        × ((t : R) × (read_length_prefixed recv show_read r ≡ (
          err (
              malformed_frame (
                utf8 "streaming payload length "
                ++ (decimal (length body) ++ (utf8 " exceeds maximum " ++ decimal 8388608)))),
          t,
        ))
            × (recvs.pending t ≡ body ++ rest))
  unfolding read_length_prefixed read_body
  read-write_oversized opcode body rest s r h h' o p =
      let (t, e, q) = read_varint_u64-groups recvs show_read (length body) (body ++ rest) r h' p in
      let fits : ltb (length body) (2 ^ 64) ≡ true = ground arith in
      let large : ltb max_streaming_payload_len (length body) ≡ true = ground arith in
      (write_length_prefixed-Wrote sends laws opcode body s h' o, (t, rw (e, fits, large) refl, q))
