-- ===== src/Server/Inbound.antt =====
-- src/server.rs: an inbound substream, by its opening byte.
use nerw_rpc.Prelude.{ℕ, List, ◌++◌, Option, some, ◌==◌, if◌then◌else◌}
use nerw_rpc.Prelude.Text.{Text, utf8, hex2}
use nerw_rpc.Result.{Result, ok, err}
use nerw_rpc.Error.{RpcError}
use nerw_rpc.WireError.{WireError}
use nerw_rpc.Wire.{opcode_unary_request, opcode_streaming_open_request}
use nerw_rpc.Registry.{MethodRegistry}
use nerw_rpc.Context.Inbound.{Arrival}
use nerw_rpc.External.Leb128.{Leb128}
use nerw_rpc.External.Quic.{RecvStream, SendStream, ReadExactError}
use nerw_rpc.External.Postcard.{Postcard}
use nerw_rpc.Streaming.{StreamingFrame, Codecs}
use nerw_rpc.Streaming.Read.{first_byte}
use nerw_rpc.Server.Frame.{write_error}
use nerw_rpc.Server.Dispatch.{MethodHandler, handle_unary_stream_with_opcode_consumed}
use nerw_rpc.Server.Streaming.{StreamingMethodHandler, handle_streaming_substream}

module _ {R S W : Type 0} (recv : RecvStream R) (send : SendStream S) (l : Leb128)
    (show_utf8 : Text → Text) (show_read : ReadExactError → Text) (debug_strings : List Text → Text)
    (debug_frame : StreamingFrame → Text) (p : Postcard WireError) (codecs : Codecs)
    (registry : MethodRegistry (MethodHandler W) (StreamingMethodHandler W)) (a : Arrival) where
  -- What follows the attempt to read the opening byte. `fuel` is that of a streaming call.
  abbrev pub by_opcode : ℕ → Result ReadExactError (List ℕ) × R → S → W → Option (S × W)
  by_opcode fuel (err e, r) s w = some (s, w)
  by_opcode fuel (ok opcode_buf, r) s w =
      let opcode = first_byte opcode_buf in
      let streamed =
        handle_streaming_substream recv send l show_read debug_strings debug_frame codecs registry a
          fuel r s w in
      let answered =
        handle_unary_stream_with_opcode_consumed recv send l show_utf8 debug_strings p registry a r
          s w in
      let refused : S × W = (
        (write_error send debug_strings p
            (RpcError.malformed_frame (
              utf8 "expected unary-request (0x00) or streaming-open (0x10), got 0x" ++ hex2 opcode))
            s).1,
        w,
      ) in
      if opcode == opcode_streaming_open_request
      then streamed
      else if opcode == opcode_unary_request
      then some answered
      else some refused

  unfoldable pub handle_inbound_substream : ℕ → R → S → W → Option (S × W)
  handle_inbound_substream fuel r s w = by_opcode fuel (recv.read_exact 1 r) s w

  abbrev handle_unary_stream_public : ℕ → R → S → W → Option (S × W)
  handle_unary_stream_public fuel r s w = handle_inbound_substream fuel r s w
