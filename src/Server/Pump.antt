-- ===== src/Server/Pump.antt =====
-- src/server.rs: the request pump of a streaming call, and what is written of its responses.
use nerw_rpc.Prelude.{
  ℕ, zero, suc, List, [], ◌∷◌, ◌++◌, Option, none, some, Bool, true, false, if◌then◌else◌,
}
use nerw_rpc.Prelude.Text.{Text, utf8}
use nerw_rpc.Result.{Result, ok, err}
use nerw_rpc.Error.{RpcError, RpcResult}
use nerw_rpc.External.Leb128.{Leb128}
use nerw_rpc.External.Quic.{RecvStream, SendStream, ReadExactError}
use nerw_rpc.External.Channel.{Sender}
use nerw_rpc.Streaming.{StreamingFrame, StreamingError, Codecs, handler_err_to_terminal}
use nerw_rpc.Streaming.Read.{read_streaming_frame}
use nerw_rpc.Streaming.Write.{write_response_chunk, write_response_end, write_streaming_error}

-- `debug_frame` is `{:?}` of a frame.
module _ {R C : Type 0} (recv : RecvStream R) (show_read : ReadExactError → Text) (codecs : Codecs)
    (debug_frame : StreamingFrame → Text) (req_tx : Sender (RpcResult (List ℕ)) C) where
  -- After a send that found the receiver gone the pump stops.
  abbrev pub unless_closed : (R → C → Option (R × C)) → R → Bool × C → Option (R × C)
  unless_closed again r (true, c) = again r c
  unless_closed again r (false, c) = some (r, c)

  abbrev pub stop_with : RpcResult (List ℕ) → R → C → Option (R × C)
  stop_with item r c = some (r, (req_tx.send item c).1)

  -- An error frame is forwarded, and a terminal one ends the pump.
  abbrev pub forward_error : (R → C → Option (R × C)) → StreamingError → R → C → Option (R × C)
  forward_error again e r c =
      let sent = (req_tx.send (err (RpcError.handler e.message)) c).1 in
      let more = again r sent in if e.terminal then some (r, sent) else more

  -- One turn of the loop on a frame, with the loop that follows it.
  abbrev pub on_request :
      (R → C → Option (R × C)) → RpcResult (Option StreamingFrame) × R → C → Option (R × C)
  on_request again (ok none, r) c = some (r, c)
  on_request again (ok (some StreamingFrame.request_end), r) c = some (r, c)
  on_request again (ok (some (StreamingFrame.request_chunk bytes)), r) c =
      unless_closed again r (req_tx.send (ok bytes) c)
  on_request again (ok (some (StreamingFrame.error e)), r) c = forward_error again e r c
  on_request again (ok (some other), r) c =
      stop_with
        (err
          (RpcError.malformed_frame (utf8 "unexpected client→server frame: " ++ debug_frame other)))
        r c
  on_request again (err e, r) c = stop_with (err e) r c

  -- On fuel, a bound on the number of frames; `none` if it does not suffice.
  unfoldable pub pump_inbound_requests : ℕ → R → C → Option (R × C)
  pump_inbound_requests zero r c = none
  pump_inbound_requests (suc fuel) r c =
      on_request (pump_inbound_requests fuel) (read_streaming_frame recv show_read codecs r) c

module _ {S : Type 0} (send : SendStream S) (l : Leb128) (codecs : Codecs)
    (debug_strings : List Text → Text) where
  -- The state once an error frame was written, or failed to be.
  abbrev pub write_terminal : StreamingError → S → S
  write_terminal e s = (write_streaming_error send l codecs e s).1

  abbrev pub after_chunk : (S → Bool × S) → RpcResult (Unit {0}) × S → Bool × S
  after_chunk again (ok _, s) = again s
  after_chunk again (err e, s) = (true, s)

  -- The items that the handler sends before it drops its sender.
  unfoldable pub drain_handler_responses : List (RpcResult (List ℕ)) → S → Bool × S
  drain_handler_responses [] s = (false, s)
  drain_handler_responses (ok chunk ∷ rest) s =
      after_chunk (drain_handler_responses rest) (write_response_chunk send l chunk s)
  drain_handler_responses (err e ∷ rest) s =
      (true, write_terminal (handler_err_to_terminal debug_strings e) s)

  -- A `JoinError` is its `Display` text.
  unfoldable pub finalise_streaming : Result Text (RpcResult (Unit {0})) → S → S
  finalise_streaming (ok (ok _)) s = (write_response_end send s).1
  finalise_streaming (ok (err handler_err)) s =
      write_terminal (handler_err_to_terminal debug_strings handler_err) s
  finalise_streaming (err join_err) s =
      write_terminal
        (record { message = utf8 "streaming handler join failure: " ++ join_err; terminal = true })
        s
