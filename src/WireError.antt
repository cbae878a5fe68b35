-- ===== src/WireError.antt =====
-- src/wire_error.rs: the typed error envelope of the unary error frame.
pub mod View
use Prim.Native.String.{String}
use nerw_rpc.Prelude.{ℕ, List, ◌++◌}
use nerw_rpc.Prelude.{Option}
use mathlib.Core.Option.{get_or}
use nerw_rpc.Prelude.Text.{Text, utf8, strip_prefix}
use nerw_rpc.Error.{RpcError, display}

pub data WireError : Type 0 where
  unknown_method : Text → WireError
  version_mismatch : Text → List Text → WireError
  invalid_method_name : Text → WireError
  malformed_frame : Text → WireError
  handler_error : Text → WireError
  codec : Text → WireError

-- The discriminant bytes, `WIRE_ERROR_UNKNOWN_METHOD` and those after it.
abbrev pub discriminant : WireError → ℕ
discriminant (WireError.unknown_method _) = 0x00
discriminant (WireError.version_mismatch _ _) = 0x01
discriminant (WireError.invalid_method_name _) = 0x02
discriminant (WireError.malformed_frame _) = 0x03
discriminant (WireError.handler_error _) = 0x04
discriminant (WireError.codec _) = 0x05

-- `debug_strings` is `{:?}` of a `Vec<String>`, for `Display` of the errors.
unfoldable pub from_rpc_error : (List Text → Text) → RpcError → WireError
from_rpc_error debug_strings (RpcError.unknown_method name) = WireError.unknown_method name
from_rpc_error debug_strings (RpcError.version_mismatch requested available) =
    WireError.version_mismatch requested available
from_rpc_error debug_strings (RpcError.invalid_method_name input) =
    WireError.invalid_method_name input
from_rpc_error debug_strings (RpcError.malformed_frame reason) = WireError.malformed_frame reason
from_rpc_error debug_strings (RpcError.codec e) = WireError.codec e
from_rpc_error debug_strings other = WireError.handler_error (display debug_strings other)

unfoldable pub into_rpc_error : WireError → RpcError
into_rpc_error (WireError.unknown_method name) = RpcError.unknown_method name
into_rpc_error (WireError.version_mismatch requested available) =
    RpcError.version_mismatch requested available
into_rpc_error (WireError.invalid_method_name input) = RpcError.invalid_method_name input
into_rpc_error (WireError.malformed_frame reason) = RpcError.malformed_frame reason
into_rpc_error (WireError.handler_error shown) =
    RpcError.handler (get_or (strip_prefix (utf8 "handler error: ") shown) shown)
into_rpc_error (WireError.codec shown) = RpcError.handler (utf8 "server codec error: " ++ shown)
