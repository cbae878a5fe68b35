-- ===== src/Tests/Streaming.antt =====
-- Streaming calls at concrete inputs.
use nerw_rpc.Prelude.{
  ℕ, zero, suc, ◌%◌, ◌^◌, List, [], ◌∷◌, ◌++◌, ◌≡◌, refl, arith, none, some, replicate, inl, inr,
  length, length-take, take, leb, Bool-cases,
}
use nerw_rpc.Result.{ok}
use nerw_rpc.External.Leb128.{groups}
use nerw_rpc.External.Channel.{collect}
use nerw_rpc.Streaming.{StreamingFrame, StreamingOpenRequest, accepted, rejected}
use nerw_rpc.Streaming.Format.{IsFrameOf, bare, prefixed}
use nerw_rpc.Streaming.Sequence.{AreFramesOf, no_frame, one_more}
use nerw_rpc.Streaming.Read.{read_streaming_frame, read_varint_u64, read_length_prefixed}
use nerw_rpc.Streaming.Read.Truncation.{value, AllContinue, read_varint_u64_truncates}
use nerw_rpc.Streaming.Read.Decoded.{IsDecoded, read_streaming_frame-IsDecoded}
use nerw_rpc.Streaming.Read.Frames.{read_streaming_frame-end}
use nerw_rpc.Streaming.RoundTrip.{Wrote, write_frame, read-write_frame}
use nerw_rpc.Client.Streaming.{pump_inbound_responses}
use nerw_rpc.StreamingCall.Requests.{request_frames}
use nerw_rpc.StreamingCall.Responses.{answers}
use nerw_rpc.StreamingCall.Items.{items_of, pump-answers}
use nerw_rpc.Tests.Instances.Leb128.{leb128, leb128_laws}
use nerw_rpc.Tests.Instances.Quic.{recv, recv_laws, send, send_laws, fresh_sent}
use nerw_rpc.Tests.Instances.Codecs.{codecs, codecs_laws}
use nerw_rpc.Tests.Instances.Shown.{show_read, debug, debug_frame}

abbrev pub chunk : List ℕ
chunk = 5 ∷ 6 ∷ []

abbrev pub response_wire : List ℕ
response_wire = 0x21 ∷ 2 ∷ 5 ∷ 6 ∷ []

response_wire-IsFrameOf : IsFrameOf codecs (StreamingFrame.response_chunk chunk) response_wire
unfolding groups
response_wire-IsFrameOf = prefixed refl (omega arith)

request_wire-IsFrameOf :
    IsFrameOf codecs (StreamingFrame.request_chunk chunk) (0x20 ∷ 2 ∷ 5 ∷ 6 ∷ [])
unfolding groups
request_wire-IsFrameOf = prefixed refl (omega arith)

-- One chunk and a clean end.
pub responses_sent :
    AreFramesOf codecs (answers debug (ok chunk ∷ []) (ok (ok tt))) (response_wire ++ (0x31 ∷ []))
responses_sent = one_more response_wire-IsFrameOf (one_more (bare refl) no_frame)

pub requests_sent : AreFramesOf codecs (request_frames (chunk ∷ [])) (0x20 ∷ 2 ∷ 5 ∷ 6 ∷ 0x30 ∷ [])
requests_sent = one_more request_wire-IsFrameOf (one_more (bare refl) no_frame)

chunk_read :
    read_streaming_frame recv show_read codecs (response_wire ++ (9 ∷ []))
    ≡ (ok (some (StreamingFrame.response_chunk chunk)), 9 ∷ [])
unfolding read_streaming_frame nerw_rpc.Streaming.Read.read_streaming_frame_after_opcode
    nerw_rpc.Streaming.Read.read_chunk nerw_rpc.Streaming.Read.read_length_prefixed
    nerw_rpc.Streaming.Read.read_varint_u64 nerw_rpc.Streaming.Read.varint_loop
    nerw_rpc.Streaming.Read.add_group nerw_rpc.Streaming.Read.read_body
chunk_read = refl

read-write_frame_example :
    Wrote send_laws leb128_laws response_wire fresh_sent
      (write_frame send leb128 codecs (StreamingFrame.response_chunk chunk) fresh_sent)
    × ((t : List ℕ) × (read_streaming_frame recv show_read codecs (response_wire ++ (9 ∷ []))
          ≡ (ok (some (StreamingFrame.response_chunk chunk)), t))
        × (t ≡ 9 ∷ []))
read-write_frame_example =
    read-write_frame send_laws recv_laws leb128_laws show_read codecs_laws
      (StreamingFrame.response_chunk chunk) response_wire (9 ∷ []) fresh_sent
      (response_wire ++ (9 ∷ [])) response_wire-IsFrameOf refl refl

all_continue : (n : ℕ) → AllContinue (replicate n 129)
all_continue zero = tt
all_continue (suc n) = (omega arith, omega arith, all_continue n)

-- The tenth byte 2 stands for 2 ^ 64, and only the nine bytes before it count.
read_varint_u64_truncates_example :
    (s : List ℕ) × (read_varint_u64 recv show_read (replicate 9 129 ++ (2 ∷ 7 ∷ []))
      ≡ (ok (value 0 (replicate 9 129 ++ (2 ∷ [])) % 2 ^ 64), s))
    × (s ≡ 7 ∷ [])
read_varint_u64_truncates_example =
    read_varint_u64_truncates recv_laws show_read (replicate 9 129) 2 (7 ∷ [])
      (replicate 9 129 ++ (2 ∷ 7 ∷ [])) refl (all_continue 9) (omega arith) refl

read_streaming_frame-end_example :
    (s : List ℕ) × (read_streaming_frame recv show_read codecs [] ≡ (ok none, s))
read_streaming_frame-end_example = read_streaming_frame-end recv_laws show_read codecs_laws [] refl

frame_read :
    read_streaming_frame recv show_read codecs (0x31 ∷ 7 ∷ [])
    ≡ (ok (some StreamingFrame.response_end), 7 ∷ [])
unfolding read_streaming_frame nerw_rpc.Streaming.Read.read_streaming_frame_after_opcode
frame_read = refl

pump-answers_example :
    (s : List ℕ) × (pump_inbound_responses recv show_read codecs debug_frame collect 2
        (response_wire ++ (0x31 ∷ []) ++ [])
        []
      ≡ some (s, [] ++ items_of debug (ok chunk ∷ []) (ok (ok tt))))
    × (s ≡ [])
pump-answers_example =
    pump-answers recv_laws show_read codecs_laws debug debug_frame (ok chunk ∷ []) (ok (ok tt)) 2
      (response_wire ++ (0x31 ∷ [])) [] (response_wire ++ (0x31 ∷ []) ++ []) [] (omega arith)
      responses_sent refl

read_exact_fills :
    (n : ℕ) (r s bytes : List ℕ) → recv.read_exact n r ≡ (ok bytes, s) → length bytes ≡ n
read_exact_fills n r s bytes h = elim (Bool-cases (leb n (length r))) [
  | inl enough ↦
      let same : bytes ≡ take n r = cc (rw enough at h) in rw same (ground (arith, length-take n r))
  | inr short ↦ cc (rw short at h)
]

read_streaming_frame-IsDecoded_example : IsDecoded codecs (StreamingFrame.response_chunk chunk)
read_streaming_frame-IsDecoded_example =
    read_streaming_frame-IsDecoded recv read_exact_fills show_read codecs
      (response_wire ++ (9 ∷ [])) (9 ∷ []) (StreamingFrame.response_chunk chunk) chunk_read
