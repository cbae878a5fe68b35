-- ===== src/Streaming/Format.antt =====
-- The bytes of a streaming frame, as src/wire.rs and src/streaming.rs describe them.
use nerw_rpc.Prelude.{ℕ, ◌≤◌, List, [], ◌∷◌, ◌++◌, ◌≡◌, length, Option, none, some}
use nerw_rpc.Prelude.Text.{Text}
use nerw_rpc.Result.{Result, ok}
use nerw_rpc.Wire.{
  max_streaming_payload_len, opcode_streaming_open_request, opcode_streaming_open_response,
  opcode_streaming_request_chunk, opcode_streaming_response_chunk, opcode_streaming_request_end,
  opcode_streaming_response_end, opcode_streaming_error,
}
use nerw_rpc.External.Leb128.{groups}
use nerw_rpc.External.Postcard.{PostcardLaws}
use nerw_rpc.Streaming.{StreamingFrame, Codecs}

-- The bodies of a call decode to what was encoded.
pub record CodecsLaws (codecs : Codecs) : Type 0 where
  pub open_request : PostcardLaws codecs.open_request
  pub open_response : PostcardLaws codecs.open_response
  pub error : PostcardLaws codecs.error

abbrev pub opcode_of : StreamingFrame → ℕ
opcode_of (StreamingFrame.open_request _) = opcode_streaming_open_request
opcode_of (StreamingFrame.open_response _) = opcode_streaming_open_response
opcode_of (StreamingFrame.request_chunk _) = opcode_streaming_request_chunk
opcode_of (StreamingFrame.response_chunk _) = opcode_streaming_response_chunk
opcode_of StreamingFrame.request_end = opcode_streaming_request_end
opcode_of StreamingFrame.response_end = opcode_streaming_response_end
opcode_of (StreamingFrame.error _) = opcode_streaming_error

-- The body of a frame, if its kind has one.
abbrev pub body_of : Codecs → StreamingFrame → Option (Result Text (List ℕ))
body_of c (StreamingFrame.open_request b) = some (c.open_request.to_allocvec b)
body_of c (StreamingFrame.open_response b) = some (c.open_response.to_allocvec b)
body_of c (StreamingFrame.request_chunk bytes) = some (ok bytes)
body_of c (StreamingFrame.response_chunk bytes) = some (ok bytes)
body_of c StreamingFrame.request_end = none
body_of c StreamingFrame.response_end = none
body_of c (StreamingFrame.error b) = some (c.error.to_allocvec b)

-- The bytes of a frame: its opcode, then the length of the body and the body.
pub data IsFrameOf (c : Codecs) (f : StreamingFrame) : List ℕ → Type 0 where
  bare : body_of c f ≡ none → IsFrameOf c f (opcode_of f ∷ [])
  prefixed :
      {body : List ℕ}
      → body_of c f ≡ some (ok body)
      → length body ≤ max_streaming_payload_len
      → IsFrameOf c f (opcode_of f ∷ (groups 9 (length body) ++ body))
