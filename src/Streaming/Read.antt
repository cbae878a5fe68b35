-- ===== src/Streaming/Read.antt =====
-- src/streaming.rs: reading frames off a receiving half.
pub mod Varint
pub mod Truncation
pub mod Frames
pub mod Progress
pub mod Decoded
use nerw_rpc.Prelude.{
  ℕ, zero, suc, ◌+◌, ◌*◌, ◌/◌, ◌%◌, ◌^◌, List, [], ◌∷◌, ◌++◌, Option, none, some, ltb, ◌==◌,
  if◌then◌else◌,
}
use nerw_rpc.Prelude.Text.{Text, utf8, decimal, hex2}
use nerw_rpc.Result.{Result, ok, err, map_err}
use nerw_rpc.Error.{RpcError, RpcResult, malformed_frame}
use nerw_rpc.Wire.{
  max_streaming_payload_len, opcode_streaming_open_request, opcode_streaming_open_response,
  opcode_streaming_request_chunk, opcode_streaming_response_chunk, opcode_streaming_request_end,
  opcode_streaming_response_end, opcode_streaming_error,
}
use nerw_rpc.Io.{Io, ◌>>=◌, lift, or_else}
use nerw_rpc.External.Quic.{RecvStream, ReadExactError, finished_early, closed_stream, read_error}
use nerw_rpc.External.Postcard.{Postcard}
use nerw_rpc.Streaming.{StreamingFrame, Codecs}

-- `u64::checked_shl`, which fails only for a shift of 64 or more and drops the high bits.
abbrev pub checked_shl : ℕ → ℕ → Option ℕ
checked_shl a shift = if ltb shift 64 then some (a * 2 ^ shift % 2 ^ 64) else none

abbrev pub checked_add_u64 : ℕ → ℕ → Option ℕ
checked_add_u64 a b = if ltb (a + b) (2 ^ 64) then some (a + b) else none

abbrev pub ok_or : {A : Type 0} → Option A → RpcError → RpcResult A
ok_or (some a) e = ok a
ok_or none e = err e

-- The byte of a one-byte buffer, which is zero before it is read.
abbrev pub first_byte : List ℕ → ℕ
first_byte [] = 0
first_byte (b ∷ _) = b

-- The sum with the seven bits of a byte, once they are shifted.
abbrev pub add_shifted : ℕ → Option ℕ → RpcResult ℕ
add_shifted result none = err (malformed_frame (utf8 "streaming varint overflow"))
add_shifted result (some shifted) =
    ok_or (checked_add_u64 result shifted) (malformed_frame (utf8 "streaming varint sum overflow"))

unfoldable pub add_group : ℕ → ℕ → ℕ → RpcResult ℕ
add_group shift result byte = add_shifted result (checked_shl (byte % 128) (shift * 7))

-- `show_read` is `Display` of a `ReadExactError`.
module _ {R : Type 0} (recv : RecvStream R) (show_read : ReadExactError → Text) where
  -- The iterations that are left, the next `shift` and the sum so far.
  unfoldable pub varint_loop : ℕ → ℕ → ℕ → Io R ℕ
  varint_loop zero shift result = lift (err (malformed_frame (utf8 "streaming varint > 10 bytes")))
  varint_loop (suc left) shift result =
      or_else (recv.read_exact 1)
        (λ e. RpcError.transport_read (utf8 "streaming varint: " ++ show_read e))
      >>= λ byte_buf. lift (add_group shift result (first_byte byte_buf)) >>= λ sum.
          let more = varint_loop left (suc shift) sum in
          if first_byte byte_buf / 128 % 2 == 0 then lift (ok sum) else more

  unfoldable pub read_varint_u64 : Io R ℕ
  read_varint_u64 = varint_loop 10 0 0

  -- `usize::try_from` on a 64-bit target.
  abbrev to_usize : ℕ → RpcResult ℕ
  to_usize len =
      if ltb len (2 ^ 64)
      then ok len
      else err (
          malformed_frame (
            utf8
              "streaming payload length overflow: out of range integral type conversion attempted"))

  -- The body of a frame, once its length is known.
  unfoldable pub read_body : ℕ → Io R (List ℕ)
  read_body len_usize =
      if ltb max_streaming_payload_len len_usize
      then lift (
          err (
            malformed_frame (
              utf8 "streaming payload length "
              ++ (decimal len_usize
                  ++ (utf8 " exceeds maximum " ++ decimal max_streaming_payload_len)))))
      else if len_usize == 0
      then lift (ok [])
      else or_else (recv.read_exact len_usize)
          (λ e. RpcError.transport_read (utf8 "streaming payload body: " ++ show_read e))

  unfoldable pub read_length_prefixed : Io R (List ℕ)
  read_length_prefixed = (read_varint_u64 >>= λ len. lift (to_usize len)) >>= read_body

  -- A frame whose body is encoded by postcard.
  unfoldable pub read_encoded :
      {A : Type 0} → Postcard A → (A → StreamingFrame) → Io R StreamingFrame
  read_encoded p frame = read_length_prefixed >>= λ bytes.
      lift (map_err RpcError.codec (p.from_bytes bytes)) >>= λ body. lift (ok (frame body))

  unfoldable pub read_chunk : (List ℕ → StreamingFrame) → Io R StreamingFrame
  read_chunk frame = read_length_prefixed >>= λ bytes. lift (ok (frame bytes))

  module _ (codecs : Codecs) where
    unfoldable pub read_streaming_frame_after_opcode : ℕ → Io R StreamingFrame
    read_streaming_frame_after_opcode opcode =
        if opcode == opcode_streaming_open_request
        then read_encoded codecs.open_request StreamingFrame.open_request
        else if opcode == opcode_streaming_open_response
        then read_encoded codecs.open_response StreamingFrame.open_response
        else if opcode == opcode_streaming_request_chunk
        then read_chunk StreamingFrame.request_chunk
        else if opcode == opcode_streaming_response_chunk
        then read_chunk StreamingFrame.response_chunk
        else if opcode == opcode_streaming_request_end
        then lift (ok StreamingFrame.request_end)
        else if opcode == opcode_streaming_response_end
        then lift (ok StreamingFrame.response_end)
        else if opcode == opcode_streaming_error
        then read_encoded codecs.error StreamingFrame.error
        else lift (err (malformed_frame (utf8 "unexpected streaming opcode 0x" ++ hex2 opcode)))

    abbrev pub classify_eof_or_error : ReadExactError → RpcResult (Option StreamingFrame)
    classify_eof_or_error (finished_early zero) = ok none
    classify_eof_or_error closed_stream = ok none
    classify_eof_or_error (finished_early (suc n)) = err (
        RpcError.transport_read
          (utf8 "partial frame: read " ++ (decimal (suc n) ++ utf8 " bytes before EOF")))
    classify_eof_or_error (read_error other) = err (RpcError.transport_read other)

    -- What follows the attempt to read the opcode.
    abbrev pub after_opcode :
        Result ReadExactError (List ℕ) × R → RpcResult (Option StreamingFrame) × R
    after_opcode (err e, r) = (classify_eof_or_error e, r)
    after_opcode (ok opcode_buf, r) =
        (read_streaming_frame_after_opcode (first_byte opcode_buf) >>= λ frame.
        lift (ok (some frame)))
          r

    unfoldable pub read_streaming_frame : Io R (Option StreamingFrame)
    read_streaming_frame r = after_opcode (recv.read_exact 1 r)
