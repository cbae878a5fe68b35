-- ===== src/Unary/Request.antt =====
-- The request frame, from the client that builds it to the server that dispatches it.
use nerw_rpc.Prelude.{ℕ, ◌≤◌, List, [], ◌∷◌, ◌++◌, ◌≡◌, refl, true, length, drop-suffix}
use nerw_rpc.Prelude.Text.{Text}
use nerw_rpc.Result.{ok}
use nerw_rpc.Wire.{max_method_name_len, opcode_unary_request}
use nerw_rpc.Wire.Utf8.{is_utf8}
use nerw_rpc.Wire.RoundTrip.{decode-encode_method_name}
use nerw_rpc.Registry.{MethodRegistry, lookup}
use nerw_rpc.Context.Inbound.{Arrival}
use nerw_rpc.External.Leb128.{Leb128, Leb128Laws}
use nerw_rpc.Server.Frame.{build_unary_request_frame}
use nerw_rpc.Server.Dispatch.{MethodHandler, dispatch_unary, invoke}

module _ {W H : Type 0} {l : Leb128} (laws : Leb128Laws l) (show_utf8 : Text → Text)
    (registry : MethodRegistry (MethodHandler W) H) (a : Arrival) where
  -- For every valid name of at most 4096 bytes the client builds a frame, and the server's dispatch
  -- of this frame is the registry's handler of that name on exactly the request, or the error for an
  -- unknown method.
  pub dispatch_unary-build :
      (name : Text) (request : List ℕ)
      → is_utf8 name ≡ true
      → length name ≤ max_method_name_len
      → (tail : List ℕ) × (build_unary_request_frame l name request
          ≡ ok (opcode_unary_request ∷ tail))
        × ((w : W)
            → dispatch_unary l show_utf8 registry a (opcode_unary_request ∷ tail) w
              ≡ invoke l show_utf8 registry a (lookup name registry) name request w)
  unfolding build_unary_request_frame dispatch_unary
  dispatch_unary-build name request valid small =
      let (wire, e, d) =
        decode-encode_method_name laws show_utf8 name (opcode_unary_request ∷ []) valid small in
      (
        wire ++ request,
        rw e refl,
        λ w. rw (d request) (rw (drop-suffix (opcode_unary_request ∷ wire) request) refl),
      )
