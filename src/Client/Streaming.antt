-- ===== src/Client/Streaming.antt =====
-- src/client.rs: a streaming call on the client.
use nerw_rpc.Prelude.{
  ℕ, zero, suc, ◌+◌, ◌%◌, ◌^◌, List, [], ◌∷◌, ◌++◌, Option, none, some, Bool, true, false,
  if◌then◌else◌,
}
use nerw_rpc.Prelude.Text.{Text, utf8, strip_prefix}
use nerw_rpc.Result.{ok, err}
use nerw_rpc.Error.{RpcError, RpcResult}
use nerw_rpc.Context.{NodeId}
use nerw_rpc.Io.{Io, ◌>>=◌, lift}
use nerw_rpc.WireError.{WireError}
use nerw_rpc.External.Leb128.{Leb128}
use nerw_rpc.External.Quic.{RecvStream, SendStream, ReadExactError}
use nerw_rpc.External.Postcard.{Postcard}
use nerw_rpc.External.Network.{Network}
use nerw_rpc.External.Channel.{Sender}
use nerw_rpc.Streaming.{StreamingFrame, StreamingError, Codecs, accepted, rejected}
use nerw_rpc.Streaming.Read.{read_streaming_frame}
use nerw_rpc.Streaming.Write.{write_open_request, write_request_chunk, write_request_end}
use nerw_rpc.Client.{open_substream}

module _ {S : Type 0} (send : SendStream S) (l : Leb128) where
  abbrev pub after_request : (S → S) → RpcResult (Unit {0}) × S → S
  after_request again (ok _, s) = again s
  after_request again (err e, s) = s

  -- The chunks that the caller sends before it drops its sender.
  unfoldable pub pump_outbound_requests : List (List ℕ) → S → S
  pump_outbound_requests [] s = (send.finish (write_request_end send s).1).1
  pump_outbound_requests (chunk ∷ rest) s =
      after_request (pump_outbound_requests rest) (write_request_chunk send l chunk s)

-- `debug_frame` is `{:?}` of a frame.
module _ {R C : Type 0} (recv : RecvStream R) (show_read : ReadExactError → Text) (codecs : Codecs)
    (debug_frame : StreamingFrame → Text) (resp_tx : Sender (RpcResult (List ℕ)) C) where
  -- After a send that found the receiver gone the pump stops.
  abbrev pub unless_dropped : (R → C → Option (R × C)) → R → Bool × C → Option (R × C)
  unless_dropped again r (true, c) = again r c
  unless_dropped again r (false, c) = some (r, c)

  abbrev pub end_with : RpcResult (List ℕ) → R → C → Option (R × C)
  end_with item r c = some (r, (resp_tx.send item c).1)

  -- An error frame is passed on, and a terminal one ends the pump.
  abbrev pub pass_error : (R → C → Option (R × C)) → StreamingError → R → C → Option (R × C)
  pass_error again e r c =
      let sent = (resp_tx.send (err (RpcError.handler e.message)) c).1 in
      let more = again r sent in if e.terminal then some (r, sent) else more

  -- One turn of the loop on a frame, with the loop that follows it.
  abbrev pub on_response :
      (R → C → Option (R × C)) → RpcResult (Option StreamingFrame) × R → C → Option (R × C)
  on_response again (ok none, r) c = some (r, c)
  on_response again (ok (some StreamingFrame.response_end), r) c = some (r, c)
  on_response again (ok (some (StreamingFrame.response_chunk bytes)), r) c =
      unless_dropped again r (resp_tx.send (ok bytes) c)
  on_response again (ok (some (StreamingFrame.error e)), r) c = pass_error again e r c
  on_response again (ok (some other), r) c =
      end_with
        (err
          (RpcError.malformed_frame (utf8 "unexpected server→client frame: " ++ debug_frame other)))
        r c
  on_response again (err e, r) c = end_with (err e) r c

  -- On fuel, a bound on the number of frames; `none` if it does not suffice.
  unfoldable pub pump_inbound_responses : ℕ → R → C → Option (R × C)
  pump_inbound_responses zero r c = none
  pump_inbound_responses (suc fuel) r c =
      on_response (pump_inbound_responses fuel) (read_streaming_frame recv show_read codecs r) c

-- The error of a refused call.
abbrev pub refusal : Text → Option Text → RpcError
refusal reason (some suffix) = RpcError.unknown_method suffix
refusal reason none = RpcError.handler reason

-- The reading of the first frame that the server sends; `debug_ack` is `{:?}` of an optional frame.
unfoldable pub check_ack :
    (Option StreamingFrame → Text) → Option StreamingFrame → RpcResult (Unit {0})
check_ack debug_ack (some (StreamingFrame.open_response ack)) = elim ack.status [
  | accepted ↦ ok tt
  | rejected reason ↦ err (refusal reason (strip_prefix (utf8 "unknown streaming method: ") reason))
]
check_ack debug_ack other =
    err (RpcError.malformed_frame (utf8 "expected streaming open-ack, got " ++ debug_ack other))

-- The call up to the acknowledgement. `next_id` is `STREAMING_REQUEST_ID`, which the call reads and
-- advances, modulo 2 ^ 64; the result is the open substream, for the two pumps.
module _ {N : Type 0} (net : Network N) (l : Leb128) (p : Postcard WireError) (codecs : Codecs)
    (show_node : NodeId → Text) (show_read : ReadExactError → Text)
    (debug_ack : Option StreamingFrame → Text) (peer : NodeId) where
  abbrev pub negotiate : Text → ℕ → net.Stream → Io N net.Stream
  negotiate method_name request_id stream =
      write_open_request (net.send stream) l codecs
        (record { method_name = method_name; request_id = request_id })
      >>= λ _. read_streaming_frame (net.recv stream) show_read codecs >>= λ ack_frame.
          lift (check_ack debug_ack ack_frame) >>= λ _. lift (ok stream)

  -- The counter advances only once the substream is open.
  abbrev pub with_counter : Text → ℕ → RpcResult net.Stream × N → RpcResult net.Stream × ℕ × N
  with_counter method_name next_id (ok stream, n) =
      let out = negotiate method_name next_id stream n in (out.0, (next_id + 1) % 2 ^ 64, out.1)
  with_counter method_name next_id (err e, n) = (err e, next_id, n)

  unfoldable pub call_streaming : Text → ℕ → N → RpcResult net.Stream × ℕ × N
  call_streaming method_name next_id n =
      with_counter method_name next_id (open_substream net l p show_node peer n)
