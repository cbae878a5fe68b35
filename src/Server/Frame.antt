-- ===== src/Server/Frame.antt =====
-- src/server.rs: the frames of a unary call.
use nerw_rpc.Prelude.{ℕ, List, [], ◌∷◌, ◌++◌}
use nerw_rpc.Prelude.Text.{Text, utf8}
use nerw_rpc.Result.{ok, err, map_err}
use nerw_rpc.Error.{RpcError, RpcResult}
use nerw_rpc.WireError.{WireError, from_rpc_error}
use nerw_rpc.Wire.{
  opcode_unary_request, opcode_unary_response, opcode_unary_error, encode_method_name,
}
use nerw_rpc.Io.{Io, ◌>>=◌, lift, or_else}
use nerw_rpc.External.Leb128.{Leb128}
use nerw_rpc.External.Quic.{SendStream}
use nerw_rpc.External.Postcard.{Postcard}

-- The frame ends with the request, behind the opcode and the name.
abbrev append_request : List ℕ → RpcResult (List ℕ) → RpcResult (List ℕ)
append_request request (ok buf) = ok (buf ++ request)
append_request request (err e) = err e

unfoldable pub build_unary_request_frame : Leb128 → Text → List ℕ → RpcResult (List ℕ)
build_unary_request_frame l method_name request =
    append_request request (encode_method_name l method_name (opcode_unary_request ∷ []))

module _ {S : Type 0} (q : SendStream S) where
  unfoldable pub write_response : List ℕ → Io S Unit
  write_response response =
      or_else (q.write_all (opcode_unary_response ∷ response)) (λ e. RpcError.transport_write e)
      >>= λ _. or_else q.finish (λ e. RpcError.transport_write (utf8 "finish: " ++ e))

  -- A failure of `finish` is only logged.
  abbrev finish_logged : Io S Unit
  finish_logged s = (ok tt, (q.finish s).1)

  unfoldable pub write_error : (List Text → Text) → Postcard WireError → RpcError → Io S Unit
  write_error debug_strings p e =
      lift (map_err RpcError.codec (p.to_allocvec (from_rpc_error debug_strings e))) >>= λ body.
      or_else (q.write_all (opcode_unary_error ∷ body)) (λ e. RpcError.transport_write e) >>= λ _.
      finish_logged
