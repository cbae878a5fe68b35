-- ===== src/Client/Tasks.antt =====
-- src/client.rs: the tasks of a streaming call on the client and its caller, over their two bounded
-- channels, as a step relation.
pub mod Outbound
pub mod Inbound
pub mod Closing
use nerw_rpc.Prelude.{
  ℕ, ◌<◌, List, [], ◌∷◌, ◌++◌, ◌≡◌, Option, none, some, Bool, true, false, length, if◌then◌else◌,
}
use nerw_rpc.Prelude.Text.{Text, utf8}
use nerw_rpc.Result.{ok, err}
use nerw_rpc.Error.{RpcError, RpcResult}
use nerw_rpc.External.Leb128.{Leb128}
use nerw_rpc.External.Quic.{RecvStream, SendStream, ReadExactError}
use nerw_rpc.Streaming.{StreamingFrame, Codecs}
use nerw_rpc.Streaming.Read.{read_streaming_frame}
use nerw_rpc.Streaming.Write.{write_request_chunk, write_request_end}

-- The capacity of both channels.
abbrev pub call_capacity : ℕ
call_capacity = 16

-- The task of the requests: it runs, it has returned, or it was aborted wherever it was, even
-- within a write, so that nothing is known of the sending half.
pub data RequestTask (S : Type 0) : Type 0 where
  pumping : S → RequestTask S
  pumped : S → RequestTask S
  aborted : RequestTask S

-- What follows the delivery of an item: another read unless the receiver is gone, another read in any
-- case, or the end.
pub data Afterwards : Type 0 where
  read_unless_dropped : Afterwards
  read_on : Afterwards
  stop : Afterwards

-- The task of the responses: it reads a frame, delivers an item, has left its loop, or is
-- done, with the cancellation that it asked for in effect.
pub data ResponseTask (R : Type 0) : Type 0 where
  reading : R → ResponseTask R
  delivering : RpcResult (List ℕ) → Afterwards → R → ResponseTask R
  returned : R → ResponseTask R
  closed : R → ResponseTask R

-- Whether the caller holds its sender and its stream, the two channels and their tasks; and all that
-- the caller has sent and was given.
pub record ClientCall (R S : Type 0) : Type 0 where
  pub is_sending : Bool
  pub sent : List (List ℕ)
  pub requests : List (List ℕ)
  pub request_task : RequestTask S
  pub response_task : ResponseTask R
  pub responses : List (RpcResult (List ℕ))
  pub yielded : List (RpcResult (List ℕ))
  pub is_receiving : Bool

-- The channels are empty when the tasks are spawned.
abbrev pub channels_live : {R S : Type 0} → R → S → ClientCall R S
channels_live r s = record {
  is_sending = true;
  sent = [];
  requests = [];
  request_task = pumping s;
  response_task = reading r;
  responses = [];
  yielded = [];
  is_receiving = true;
}

abbrev pub after_delivery : {R : Type 0} → Afterwards → Bool → R → ResponseTask R
after_delivery read_unless_dropped true r = reading r
after_delivery read_unless_dropped false r = returned r
after_delivery read_on is_held r = reading r
after_delivery stop is_held r = returned r

abbrev pub abort_requests : {S : Type 0} → RequestTask S → RequestTask S
abort_requests (pumping s) = aborted
abort_requests (pumped s) = pumped s
abort_requests aborted = aborted

abbrev pub after_request_write : {S : Type 0} → RpcResult (Unit {0}) × S → RequestTask S
after_request_write (ok _, s) = pumping s
after_request_write (err _, s) = pumped s

-- A turn of `pump_inbound_responses` up to its delivery; `debug_frame` is `{:?}` of a frame.
abbrev pub on_frame :
    {R : Type 0} → (StreamingFrame → Text) → RpcResult (Option StreamingFrame) × R → ResponseTask R
on_frame debug_frame (ok none, r) = returned r
on_frame debug_frame (ok (some StreamingFrame.response_end), r) = returned r
on_frame debug_frame (ok (some (StreamingFrame.response_chunk bytes)), r) =
    delivering (ok bytes) read_unless_dropped r
on_frame debug_frame (ok (some (StreamingFrame.error e)), r) =
    delivering (err (RpcError.handler e.message)) (if e.terminal then stop else read_on) r
on_frame debug_frame (ok (some other), r) =
    delivering
      (err
        (RpcError.malformed_frame (utf8 "unexpected server→client frame: " ++ debug_frame other)))
      stop r
on_frame debug_frame (err e, r) = delivering (err e) stop r

module _ {R S : Type 0} (recv : RecvStream R) (stream : SendStream S) (l : Leb128)
    (show_read : ReadExactError → Text) (codecs : Codecs)
    (debug_frame : StreamingFrame → Text) where
  -- The caller sends a chunk while the channel has room and its task runs, takes an item, or drops its
  -- sender or its stream. The task of the requests writes a chunk, and the end once the sender is
  -- dropped and the channel is empty. The task of the responses reads a frame, delivers an item once
  -- there is room or the stream is dropped, and aborts the task of the requests when it has left its
  -- loop; the step is where the cancellation takes effect, and until then that task may go on.
  pub data Step (t : ClientCall R S) : ClientCall R S → Type 0 where
    send_request :
        (chunk : List ℕ) (s : S)
        → t.is_sending ≡ true
        → t.request_task ≡ pumping s
        → length t.requests < call_capacity
        → Step t (record t { sent = t.sent ++ (chunk ∷ []); requests = t.requests ++ (chunk ∷ []) })
    drop_sender : Step t (record t { is_sending = false })
    take_response :
        (item : RpcResult (List ℕ)) (rest : List (RpcResult (List ℕ)))
        → t.is_receiving ≡ true
        → t.responses ≡ item ∷ rest
        → Step t (record t { responses = rest; yielded = t.yielded ++ (item ∷ []) })
    drop_stream : Step t (record t { is_receiving = false })
    write_request :
        (chunk : List ℕ) (rest : List (List ℕ)) (s : S)
        → t.request_task ≡ pumping s
        → t.requests ≡ chunk ∷ rest
        → Step t (record t {
          requests = rest;
          request_task = after_request_write (write_request_chunk stream l chunk s);
        })
    end_requests :
        (s : S)
        → t.request_task ≡ pumping s
        → t.requests ≡ []
        → t.is_sending ≡ false
        → Step t
            (record t { request_task = pumped (stream.finish (write_request_end stream s).1).1 })
    read_frame :
        (r : R)
        → t.response_task ≡ reading r
        → Step t (record t {
          response_task = on_frame debug_frame (read_streaming_frame recv show_read codecs r);
        })
    deliver :
        (item : RpcResult (List ℕ)) (next : Afterwards) (r : R)
        → t.response_task ≡ delivering item next r
        → t.is_receiving ≡ true
        → length t.responses < call_capacity
        → Step t (record t {
          responses = t.responses ++ (item ∷ []);
          response_task = after_delivery next true r;
        })
    deliver_dropped :
        (item : RpcResult (List ℕ)) (next : Afterwards) (r : R)
        → t.response_task ≡ delivering item next r
        → t.is_receiving ≡ false
        → Step t (record t { response_task = after_delivery next false r })
    abort :
        (r : R)
        → t.response_task ≡ returned r
        → Step t
            (record t { response_task = closed r; request_task = abort_requests t.request_task })

  -- The states that the caller and the tasks reach.
  pub data Reached (start : ClientCall R S) : ClientCall R S → Type 0 where
    here : Reached start start
    next : {t u : ClientCall R S} → Reached start t → Step t u → Reached start u
