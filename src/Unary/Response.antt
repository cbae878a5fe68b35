-- ===== src/Unary/Response.antt =====
-- The response frame, from the server that writes it to the client that decodes it.
use nerw_rpc.Prelude.{ℕ, List, [], ◌∷◌, ◌++◌, append-nil, ◌≡◌, refl, ◌∙◌, true, false}
use nerw_rpc.Prelude.Text.{Text}
use nerw_rpc.Result.{ok, err}
use nerw_rpc.Error.{RpcError, RpcResult}
use nerw_rpc.WireError.{WireError, from_rpc_error}
use nerw_rpc.WireError.View.{view}
use nerw_rpc.Wire.{opcode_unary_response, opcode_unary_error}
use nerw_rpc.External.Quic.{SendStream, SendLaws}
use nerw_rpc.External.Postcard.{Postcard, PostcardLaws}
use nerw_rpc.Server.Frame.{write_response, write_error}
use nerw_rpc.Client.{decode_response_frame}

module _ {S : Type 0} {send : SendStream S} (sends : SendLaws send)
    (debug_strings : List Text → Text) {p : Postcard WireError} (codec : PostcardLaws p) where
  -- The client's result for the outcome of a dispatch.
  abbrev pub seen : RpcResult (List ℕ) → RpcResult (List ℕ)
  seen (ok response) = ok response
  seen (err e) = err (view debug_strings e)

  -- `bytes` was written, the stream is finished, and a client makes `result` of the bytes.
  abbrev pub Answered : RpcResult (List ℕ) → S → S → Type 0
  Answered result s t =
      (bytes : List ℕ) × (sends.written t ≡ sends.written s ++ bytes)
      × (sends.is_open t ≡ false)
      × (decode_response_frame p bytes ≡ result)

  pub write_response-Answered :
      (response : List ℕ) (s : S)
      → sends.is_open s ≡ true
      → Answered (ok response) s (write_response send response s).1
  unfolding write_response decode_response_frame
  write_response-Answered response s o =
      let (t, e, w, u) = sends.write_all-written (opcode_unary_response ∷ response) s o in
      let (v, f, x, y) = sends.finish-written t u in
      (opcode_unary_response ∷ response, rw (e, f) (x ∙ w), rw (e, f) y, refl)

  pub write_error-Answered :
      (error : RpcError) (body : List ℕ) (s : S)
      → p.to_allocvec (from_rpc_error debug_strings error) ≡ ok body
      → sends.is_open s ≡ true
      → Answered (err (view debug_strings error)) s (write_error send debug_strings p error s).1
  unfolding write_error decode_response_frame
  write_error-Answered error body s c o =
      let (t, e, w, u) = sends.write_all-written (opcode_unary_error ∷ body) s o in
      let (v, f, x, y) = sends.finish-written t u in
      let back : p.from_bytes body ≡ ok (from_rpc_error debug_strings error) =
        rw (append-nil body) at (codec.from-to (from_rpc_error debug_strings error) body [] c) in
      (opcode_unary_error ∷ body, rw (c, e, f) (x ∙ w), rw (c, e, f) y, rw back refl)
