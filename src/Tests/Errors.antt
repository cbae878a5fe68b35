-- ===== src/Tests/Errors.antt =====
-- The error envelope at concrete errors.
use nerw_rpc.Prelude.{◌≡◌, refl, ◌⊎◌, ◌↔◌, true, List, ◌++◌, none}
use nerw_rpc.Prelude.Text.{Text, utf8, strip_prefix}
use nerw_rpc.Error.{RpcError, display}
use nerw_rpc.WireError.View.{is_portable, view, view-IsPortable, view-internal}

abbrev debug : List Text → Text
debug _ = utf8 "[..]"

abbrev boom : RpcError
boom = RpcError.transport_read (utf8 "closed")

shown :
    display debug (RpcError.datagram_too_short 0)
    ≡ utf8 "datagram: too short (0 bytes), need at least 1 byte for varint stream-id prefix"
unfolding display
shown = refl

view-IsPortable_example :
    (is_portable (RpcError.codec (utf8 "end of input")) ≡ true)
    ↔ (view debug (RpcError.codec (utf8 "end of input")) ≡ RpcError.codec (utf8 "end of input"))
view-IsPortable_example = view-IsPortable debug (RpcError.codec (utf8 "end of input"))

view-internal_example :
    (t : Text) × (view debug boom ≡ RpcError.handler t)
    × (strip_prefix (utf8 "handler error: ") t ≡ none)
    × ((t ≡ display debug boom)
        ⊎ ((c : Text) × (boom ≡ RpcError.codec c) × (t ≡ utf8 "server codec error: " ++ c)))
view-internal_example = view-internal debug boom refl
