-- ===== src/Streaming.antt =====
-- src/streaming.rs: the frames of a streaming call. The wire bodies are encoded by postcard.
pub mod Read
pub mod Write
pub mod Format
pub mod RoundTrip
pub mod Sequence
use nerw_rpc.Prelude.{ℕ, List, Bool, true}
use nerw_rpc.Prelude.Text.{Text}
use nerw_rpc.Error.{RpcError, display}
use nerw_rpc.External.Postcard.{Postcard}

pub record StreamingOpenRequest : Type 0 where
  pub method_name : Text
  pub request_id : ℕ

pub data StreamingOpenStatus : Type 0 where
  accepted : StreamingOpenStatus
  rejected : Text → StreamingOpenStatus

pub record StreamingOpenResponse : Type 0 where
  pub status : StreamingOpenStatus
  pub request_id : ℕ

pub record StreamingError : Type 0 where
  pub message : Text
  pub terminal : Bool

-- `StreamingError::terminal_from`, given what its argument displays.
abbrev pub terminal_from : Text → StreamingError
terminal_from shown = record { message = shown; terminal = true }

unfoldable pub handler_err_to_terminal : (List Text → Text) → RpcError → StreamingError
handler_err_to_terminal debug_strings e = terminal_from (display debug_strings e)

pub data StreamingFrame : Type 0 where
  open_request : StreamingOpenRequest → StreamingFrame
  open_response : StreamingOpenResponse → StreamingFrame
  request_chunk : List ℕ → StreamingFrame
  response_chunk : List ℕ → StreamingFrame
  request_end : StreamingFrame
  response_end : StreamingFrame
  error : StreamingError → StreamingFrame

-- `serde` and `postcard` at the three bodies.
pub record Codecs : Type 0 where
  pub open_request : Postcard StreamingOpenRequest
  pub open_response : Postcard StreamingOpenResponse
  pub error : Postcard StreamingError
