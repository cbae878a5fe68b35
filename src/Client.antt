-- ===== src/Client.antt =====
-- src/client.rs: the outbound side, unary calls.
pub mod Eviction
pub mod Streaming
pub mod Tasks
use nerw_rpc.Prelude.{ℕ, ◌*◌, List, [], ◌∷◌, ◌++◌, Bool, true, false, if◌then◌else◌, ◌==◌}
use nerw_rpc.Prelude.Text.{Text, utf8, hex2}
use nerw_rpc.Result.{Result, ok, err, map_err}
use nerw_rpc.Error.{RpcError, RpcResult}
use nerw_rpc.WireError.{WireError, into_rpc_error}
use nerw_rpc.Wire.{opcode_unary_response, opcode_unary_error}
use nerw_rpc.Context.{NodeId}
use nerw_rpc.Transport.{alpn_nerw_rpc_1_0_0}
use nerw_rpc.Io.{Io, ◌>>=◌, lift, or_else}
use nerw_rpc.External.Leb128.{Leb128}
use nerw_rpc.External.Network.{Network}
use nerw_rpc.External.Postcard.{Postcard}
use nerw_rpc.Server.Frame.{build_unary_request_frame}

abbrev pub rpc_response_read_limit : ℕ
rpc_response_read_limit = 8 * 1024 * 1024

unfoldable pub is_transport_io_error : RpcError → Bool
is_transport_io_error (RpcError.transport_read _) = true
is_transport_io_error (RpcError.transport_write _) = true
is_transport_io_error _ = false

-- The error that a decoded envelope carries.
abbrev pub raise : RpcResult WireError → RpcResult (List ℕ)
raise (ok wire) = err (into_rpc_error wire)
raise (err e) = err e

unfoldable pub decode_response_frame : Postcard WireError → List ℕ → RpcResult (List ℕ)
decode_response_frame p [] = err (RpcError.malformed_frame (utf8 "empty response frame"))
decode_response_frame p (opcode ∷ body) =
    if opcode == opcode_unary_response
    then ok body
    else if opcode == opcode_unary_error
    then raise (map_err RpcError.codec (p.from_bytes body))
    else err (RpcError.malformed_frame (utf8 "unexpected response opcode 0x" ++ hex2 opcode))

-- `show_node` is `Display` of a node id.
module _ {N : Type 0} (net : Network N) (l : Leb128) (p : Postcard WireError)
    (show_node : NodeId → Text) (peer : NodeId) where
  unfoldable pub open_substream : Io N net.Stream
  open_substream =
      or_else (net.open_substream peer alpn_nerw_rpc_1_0_0)
        (λ e. RpcError.transport_open_substream (show_node peer) e)

  -- The exchange on an open substream.
  unfoldable pub exchange : List ℕ → net.Stream → Io N (List ℕ)
  exchange frame stream =
      or_else ((net.send stream).write_all frame)
        (λ e. RpcError.transport_write (utf8 "write_all: " ++ e))
      >>= λ _.
          or_else (net.send stream).finish (λ e. RpcError.transport_write (utf8 "finish: " ++ e))
          >>= λ _.
              or_else ((net.recv stream).read_to_end rpc_response_read_limit)
                (λ e. RpcError.transport_read (utf8 "read_to_end: " ++ e))
              >>= λ response. lift (decode_response_frame p response)

  unfoldable pub call_inner : Text → List ℕ → Io N (List ℕ)
  call_inner method_name request =
      lift (build_unary_request_frame l method_name request) >>= λ frame.
      open_substream >>= exchange frame

  -- Eviction of the cached connection after a transport error.
  abbrev pub evict_after : RpcResult (List ℕ) × N → RpcResult (List ℕ) × N
  evict_after (ok response, n) = (ok response, n)
  evict_after (err e, n) = (
    err e,
    if is_transport_io_error e then net.evict_cached_connection peer alpn_nerw_rpc_1_0_0 n else n,
  )

  unfoldable pub call : Text → List ℕ → Io N (List ℕ)
  call method_name request n = evict_after (call_inner method_name request n)
