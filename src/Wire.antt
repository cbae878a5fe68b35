-- ===== src/Wire.antt =====
-- src/wire.rs: opcodes, limits and the two length-prefixed codecs.
pub mod Utf8
pub mod RoundTrip
pub mod StreamIds
use nerw_rpc.Prelude.{ℕ, suc, ◌+◌, ◌*◌, ◌^◌, ◌-◌, List, [], ◌∷◌, ◌++◌, Option, none, some, Bool}
use nerw_rpc.Prelude.{length, take, drop, ltb, leb, if◌then◌else◌}
use nerw_rpc.Prelude.Text.{Text, utf8, decimal}
use nerw_rpc.Result.{ok, err, ◌>>=◌, map_err}
use nerw_rpc.Error.{RpcError, RpcResult, malformed_frame}
use nerw_rpc.External.Leb128.{Leb128}
use nerw_rpc.Wire.Utf8.{from_utf8}

abbrev pub max_streaming_payload_len : ℕ
max_streaming_payload_len = 8 * 1024 * 1024

abbrev pub max_method_name_len : ℕ
max_method_name_len = 4096

abbrev pub opcode_unary_request : ℕ
opcode_unary_request = 0x00

abbrev pub opcode_unary_response : ℕ
opcode_unary_response = 0x01

abbrev pub opcode_unary_error : ℕ
opcode_unary_error = 0x02

abbrev pub opcode_streaming_open_request : ℕ
opcode_streaming_open_request = 0x10

abbrev pub opcode_streaming_open_response : ℕ
opcode_streaming_open_response = 0x11

abbrev pub opcode_streaming_request_chunk : ℕ
opcode_streaming_request_chunk = 0x20

abbrev pub opcode_streaming_response_chunk : ℕ
opcode_streaming_response_chunk = 0x21

abbrev pub opcode_streaming_request_end : ℕ
opcode_streaming_request_end = 0x30

abbrev pub opcode_streaming_response_end : ℕ
opcode_streaming_response_end = 0x31

abbrev pub opcode_streaming_error : ℕ
opcode_streaming_error = 0x40

-- `usize::checked_add` on a 64-bit target.
abbrev pub checked_add : ℕ → ℕ → Option ℕ
checked_add a b = if ltb (a + b) (2 ^ 64) then some (a + b) else none

-- The end of the name, if it lies in the buffer.
abbrev pub name_end : ℕ → ℕ → ℕ → RpcResult ℕ
name_end consumed name_len size = elim (checked_add consumed name_len) [
  | none ↦ err (malformed_frame (utf8 "method-name length exceeds buffer"))
  | some stop ↦
      if leb stop size
      then ok stop
      else err (malformed_frame (utf8 "method-name length exceeds buffer"))
]

abbrev pub check_name_len : ℕ → RpcResult (Unit {0})
check_name_len name_len =
    if ltb max_method_name_len name_len
    then err (
        malformed_frame (
          utf8 "method-name length "
          ++ (decimal name_len ++ (utf8 " exceeds maximum " ++ decimal max_method_name_len))))
    else ok tt

-- `decode_method_name` after the length: `consumed` bytes of the input are read.
-- `show_utf8` is the `Display` of the error that `from_utf8` gives on these bytes.
pub split_name : (Text → Text) → List ℕ → ℕ → ℕ → RpcResult (Text × List ℕ)
split_name show_utf8 input name_len consumed = do
  _ ← check_name_len name_len
  stop ← name_end consumed name_len (length input)
  name ←
      map_err (λ e. malformed_frame (utf8 "non-UTF-8 method-name: " ++ e))
        (from_utf8 show_utf8 (take (stop - consumed) (drop consumed input)))
  ok (name, drop stop input)

module _ (l : Leb128) where
  -- `usize` has 64 bits, so the conversions to and from `u64` do not fail.
  unfoldable pub encode_method_name : Text → Text → RpcResult Text
  encode_method_name name buf = do
    prefix ← map_err (λ e. malformed_frame (utf8 "leb128 write: " ++ e)) (l.write (length name))
    ok (buf ++ (prefix ++ name))

  unfoldable pub decode_method_name : (Text → Text) → List ℕ → RpcResult (Text × List ℕ)
  unfolding split_name
  decode_method_name show_utf8 input = do
    (name_len, consumed) ← map_err (λ e. malformed_frame (utf8 "leb128 read: " ++ e)) (l.read input)
    split_name show_utf8 input name_len consumed

  unfoldable pub encode_stream_id : ℕ → List ℕ → RpcResult (List ℕ)
  encode_stream_id stream_id buf = do
    bytes ←
        map_err (λ e. malformed_frame (utf8 "leb128 write stream-id: " ++ e)) (l.write stream_id)
    ok (buf ++ bytes)

  unfoldable pub decode_stream_id : List ℕ → RpcResult (ℕ × List ℕ)
  decode_stream_id input = do
    (stream_id, consumed) ←
        map_err (λ e. malformed_frame (utf8 "leb128 read stream-id: " ++ e)) (l.read input)
    ok (stream_id, drop consumed input)
