-- ===== src/Error.antt =====
-- src/error.rs: the error type of the framework and its `Display`.
use nerw_rpc.Prelude.{ℕ, List, ◌++◌}
use nerw_rpc.Prelude.Text.{Text, utf8, decimal}
use nerw_rpc.Result.{Result}

-- `postcard::Error` and `Box<dyn Error>` are opaque to the framework, which only displays them: a
-- value of these types is its `Display` text.
pub data RpcError : Type 0 where
  codec : Text → RpcError
  malformed_frame : Text → RpcError
  unknown_method : Text → RpcError
  invalid_method_name : Text → RpcError
  version_mismatch : Text → List Text → RpcError
  handler : Text → RpcError
  transport_open_substream : Text → Text → RpcError
  transport_register_alpn : Text → Text → RpcError
  transport_read : Text → RpcError
  transport_write : Text → RpcError
  datagram_stream_id_collision : ℕ → RpcError
  datagram_stream_id_unknown : ℕ → RpcError
  datagram_too_short : ℕ → RpcError
  already_serving : RpcError

abbrev pub RpcResult {ℓ} : Type ℓ → Type ℓ
RpcResult A = Result RpcError A

-- `debug_strings` is `{:?}` of a `Vec<String>`.
module _ (debug_strings : List Text → Text) where
  unfoldable pub display : RpcError → Text
  unfolding decimal
  display (codec e) = utf8 "codec error: " ++ e
  display (malformed_frame reason) = utf8 "malformed wire frame: " ++ reason
  display (unknown_method name) = utf8 "unknown method: " ++ name
  display (invalid_method_name input) =
      utf8 "invalid method-name format: expected `package[@version]/interface/method`, got `"
      ++ (input ++ utf8 "`")
  display (version_mismatch requested available) =
      utf8 "version mismatch: requested "
      ++ (requested ++ (utf8 ", available " ++ debug_strings available))
  display (handler e) = utf8 "handler error: " ++ e
  display (transport_open_substream node_id reason) =
      utf8 "transport: failed to open substream to peer " ++ (node_id ++ (utf8 ": " ++ reason))
  display (transport_register_alpn alpn reason) =
      utf8 "transport: failed to register ALPN handler '" ++ (alpn ++ (utf8 "': " ++ reason))
  display (transport_read reason) = utf8 "transport: read failed: " ++ reason
  display (transport_write reason) = utf8 "transport: write failed: " ++ reason
  display (datagram_stream_id_collision id) =
      utf8 "datagram: stream-id " ++ (decimal id ++ utf8 " already registered")
  display (datagram_stream_id_unknown id) =
      utf8 "datagram: stream-id " ++ (decimal id ++ utf8 " not registered")
  display (datagram_too_short len) =
      utf8 "datagram: too short ("
      ++ (decimal len ++ utf8 " bytes), need at least 1 byte for varint stream-id prefix")
  display already_serving = utf8 "RpcServer::serve() called twice — accept loop already running"
