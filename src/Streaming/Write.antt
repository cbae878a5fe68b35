-- ===== src/Streaming/Write.antt =====
-- src/streaming.rs: writing frames to a sending half.
use nerw_rpc.Prelude.{ℕ, List, [], ◌∷◌, ◌++◌, length}
use nerw_rpc.Prelude.Text.{utf8}
use nerw_rpc.Result.{map_err}
use nerw_rpc.Error.{RpcError, RpcResult, malformed_frame}
use nerw_rpc.Wire.{
  opcode_streaming_open_request, opcode_streaming_open_response, opcode_streaming_request_chunk,
  opcode_streaming_response_chunk, opcode_streaming_request_end, opcode_streaming_response_end,
  opcode_streaming_error,
}
use nerw_rpc.Io.{Io, ◌>>=◌, lift, or_else}
use nerw_rpc.External.Leb128.{Leb128}
use nerw_rpc.External.Quic.{SendStream}
use nerw_rpc.External.Postcard.{Postcard}
use nerw_rpc.Streaming.{StreamingOpenRequest, StreamingOpenResponse, StreamingError, Codecs}

-- The bytes behind what the buffer holds.
abbrev pub encode_varint_u64 : Leb128 → ℕ → RpcResult (List ℕ)
encode_varint_u64 l value =
    map_err (λ e. malformed_frame (utf8 "leb128 write streaming varint: " ++ e)) (l.write value)

module _ {S : Type 0} (send : SendStream S) where
  unfoldable pub write_single_opcode : ℕ → Io S Unit
  write_single_opcode opcode =
      or_else (send.write_all (opcode ∷ []))
        (λ e. RpcError.transport_write (utf8 "streaming opcode-only write: " ++ e))

  abbrev pub write_request_end : Io S Unit
  write_request_end = write_single_opcode opcode_streaming_request_end

  abbrev pub write_response_end : Io S Unit
  write_response_end = write_single_opcode opcode_streaming_response_end

  module _ (l : Leb128) where
    unfoldable pub write_length_prefixed : ℕ → List ℕ → Io S Unit
    write_length_prefixed opcode body = lift (encode_varint_u64 l (length body)) >>= λ varint.
        or_else (send.write_all (opcode ∷ (varint ++ body)))
          (λ e. RpcError.transport_write (utf8 "streaming write_all: " ++ e))

    abbrev pub write_request_chunk : List ℕ → Io S Unit
    write_request_chunk = write_length_prefixed opcode_streaming_request_chunk

    abbrev pub write_response_chunk : List ℕ → Io S Unit
    write_response_chunk = write_length_prefixed opcode_streaming_response_chunk

    -- A body that postcard encodes.
    unfoldable pub write_encoded : {A : Type 0} → Postcard A → ℕ → A → Io S Unit
    write_encoded p opcode body =
        lift (map_err RpcError.codec (p.to_allocvec body)) >>= write_length_prefixed opcode

    module _ (codecs : Codecs) where
      abbrev pub write_open_request : StreamingOpenRequest → Io S Unit
      write_open_request = write_encoded codecs.open_request opcode_streaming_open_request

      abbrev pub write_open_response : StreamingOpenResponse → Io S Unit
      write_open_response = write_encoded codecs.open_response opcode_streaming_open_response

      abbrev pub write_streaming_error : StreamingError → Io S Unit
      write_streaming_error = write_encoded codecs.error opcode_streaming_error
