-- ===== src/WireError/View.antt =====
-- What a client sees of a server's error: `into_rpc_error` after `from_rpc_error`.
use nerw_rpc.Prelude.{
  ◌≡◌, refl, sym, ap, ◌∙◌, ◌⊎◌, ◌↔◌, inl, inr, List, ◌++◌, Bool, true, false, none, Bool-cases,
}
use nerw_rpc.Prelude.Text.{Text, utf8, strip_prefix}
use nerw_rpc.Error.{RpcError, display}
use nerw_rpc.WireError.{from_rpc_error, into_rpc_error}

-- The errors that cross the wire as themselves: those with a wire variant, except the codec error,
-- which the client rebuilds as a handler error.
abbrev pub is_portable : RpcError → Bool
is_portable (RpcError.unknown_method _) = true
is_portable (RpcError.version_mismatch _ _) = true
is_portable (RpcError.invalid_method_name _) = true
is_portable (RpcError.malformed_frame _) = true
is_portable (RpcError.handler _) = true
is_portable _ = false

module _ (debug_strings : List Text → Text) where
  abbrev pub view : RpcError → RpcError
  view e = into_rpc_error (from_rpc_error debug_strings e)

  view_of_is_portable : (e : RpcError) → is_portable e ≡ true → view e ≡ e
  unfolding from_rpc_error into_rpc_error display
  view_of_is_portable (RpcError.unknown_method _) h = refl
  view_of_is_portable (RpcError.version_mismatch _ _) h = refl
  view_of_is_portable (RpcError.invalid_method_name _) h = refl
  view_of_is_portable (RpcError.malformed_frame _) h = refl
  view_of_is_portable (RpcError.handler s) h = refl
  view_of_is_portable _ h = cc

  is_portable_of_view : (e : RpcError) → view e ≡ e → is_portable e ≡ true
  unfolding from_rpc_error into_rpc_error
  is_portable_of_view (RpcError.unknown_method _) h = refl
  is_portable_of_view (RpcError.version_mismatch _ _) h = refl
  is_portable_of_view (RpcError.invalid_method_name _) h = refl
  is_portable_of_view (RpcError.malformed_frame _) h = refl
  is_portable_of_view (RpcError.handler s) h = refl
  is_portable_of_view _ h = cc

  -- The errors that reach the client as they left the server, with their variant, their metadata and
  -- their text, are exactly those for an unknown method, a version mismatch, an invalid method name, a
  -- malformed frame and the error of a handler. A codec error is none of them, although it has a
  -- variant of its own on the wire.
  pub view-IsPortable : (e : RpcError) → (is_portable e ≡ true) ↔ (view e ≡ e)
  view-IsPortable e = (view_of_is_portable e, is_portable_of_view e)

  -- Any other error reaches the client as a handler error with one prefix: the text inside is the
  -- server's rendering of the error, or that of the codec error with its own prefix, and never
  -- begins with "handler error: " itself.
  pub view-internal :
      (e : RpcError)
      → is_portable e ≡ false
      → (t : Text) × (view e ≡ RpcError.handler t)
        × (strip_prefix (utf8 "handler error: ") t ≡ none)
        × ((t ≡ display debug_strings e)
            ⊎ ((c : Text) × (e ≡ RpcError.codec c) × (t ≡ utf8 "server codec error: " ++ c)))
  unfolding from_rpc_error into_rpc_error display
  view-internal (RpcError.codec c) h = (_, refl, refl, inr (c, refl, refl))
  view-internal (RpcError.transport_open_substream a b) h = (_, refl, refl, inl refl)
  view-internal (RpcError.transport_register_alpn a b) h = (_, refl, refl, inl refl)
  view-internal (RpcError.transport_read a) h = (_, refl, refl, inl refl)
  view-internal (RpcError.transport_write a) h = (_, refl, refl, inl refl)
  view-internal (RpcError.datagram_stream_id_collision n) h = (_, refl, refl, inl refl)
  view-internal (RpcError.datagram_stream_id_unknown n) h = (_, refl, refl, inl refl)
  view-internal (RpcError.datagram_too_short n) h = (_, refl, refl, inl refl)
  view-internal RpcError.already_serving h = (_, refl, refl, inl refl)
  view-internal _ h = cc

  -- A second hop changes nothing: an error that a client received and that is sent on as a
  -- server's error arrives as it was.
  view_idempotent : (e : RpcError) → view (view e) ≡ view e
  view_idempotent e = elim (Bool-cases (is_portable e)) [
    | inl p ↦ ap view (view_of_is_portable e p)
    | inr p ↦
        let (t, seen, _, _) = view-internal e p in
        ap view seen ∙ view_of_is_portable (RpcError.handler t) refl ∙ sym seen
  ]
