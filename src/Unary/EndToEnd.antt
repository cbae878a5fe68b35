-- ===== src/Unary/EndToEnd.antt =====
-- A unary call over a stream that delivers.
use nerw_rpc.Prelude.{
  ℕ, suc, ◌≤◌, List, [], ◌∷◌, ◌≡◌, refl, ◌∙◌, arith, true, length, none, some, ◌⊎◌, inl, inr,
  Option-cases,
}
use nerw_rpc.Prelude.Text.{Text}
use nerw_rpc.Result.{ok, err}
use nerw_rpc.Error.{RpcError, RpcResult}
use nerw_rpc.WireError.{WireError, from_rpc_error, into_rpc_error}
use nerw_rpc.Wire.{max_method_name_len, opcode_unary_request}
use nerw_rpc.Wire.Utf8.{is_utf8}
use nerw_rpc.Registry.{MethodRegistry, lookup}
use nerw_rpc.Context.Inbound.{Arrival, build_inbound_context}
use nerw_rpc.External.Leb128.{Leb128, Leb128Laws}
use nerw_rpc.External.Quic.{RecvStream, RecvLaws, SendStream, SendLaws, ReadExactError}
use nerw_rpc.External.Postcard.{Postcard, PostcardLaws}
use nerw_rpc.Streaming.{StreamingFrame, Codecs}
use nerw_rpc.Server.{rpc_stream_read_limit}
use nerw_rpc.Server.Frame.{build_unary_request_frame}
use nerw_rpc.Server.Dispatch.{
  MethodHandler, invoke, answer, handle_unary_stream_with_opcode_consumed,
}
use nerw_rpc.Server.Streaming.{StreamingMethodHandler}
use nerw_rpc.Server.Inbound.{handle_inbound_substream}
use nerw_rpc.Unary.Request.{dispatch_unary-build}
use nerw_rpc.Unary.Response.{seen, Answered, write_response-Answered, write_error-Answered}

module _ {R S W : Type 0} {recv : RecvStream R} (recvs : RecvLaws recv) {send : SendStream S}
    (sends : SendLaws send) {l : Leb128} (laws : Leb128Laws l) (show_utf8 : Text → Text)
    (show_read : ReadExactError → Text) (debug_strings : List Text → Text)
    (debug_frame : StreamingFrame → Text) {p : Postcard WireError} (codec : PostcardLaws p)
    (encodes : (e : WireError) → (body : List ℕ) × (p.to_allocvec e ≡ ok body)) (codecs : Codecs)
    (registry : MethodRegistry (MethodHandler W) (StreamingMethodHandler W)) (a : Arrival) where
  answer-Answered :
      (out : RpcResult (List ℕ)) (s : S)
      → sends.is_open s ≡ true
      → Answered sends debug_strings codec
          (seen sends debug_strings codec out)
          s
          (answer recv send l show_utf8 debug_strings p registry a out s)
  answer-Answered (ok response) s o = write_response-Answered sends debug_strings codec response s o
  answer-Answered (err e) s o =
      let (body, c) = encodes (from_rpc_error debug_strings e) in
      write_error-Answered sends debug_strings codec e body s c o

  -- The same by what `invoke` makes of the lookup.
  handle_inbound_substream-invoke :
      (name : Text) (request frame : List ℕ) (fuel : ℕ) (r : R) (s : S) (w : W)
      → is_utf8 name ≡ true
      → length name ≤ max_method_name_len
      → build_unary_request_frame l name request ≡ ok frame
      → length frame ≤ rpc_stream_read_limit
      → recvs.pending r ≡ frame
      → sends.is_open s ≡ true
      → let out = invoke l show_utf8 registry a (lookup name registry) name request w in
        (t : S) × (handle_inbound_substream recv send l show_utf8 show_read debug_strings
            debug_frame p codecs registry a fuel r s w
          ≡ some (t, out.1))
        × Answered sends debug_strings codec (seen sends debug_strings codec out.0) s t
  unfolding handle_inbound_substream handle_unary_stream_with_opcode_consumed
  handle_inbound_substream-invoke name request frame fuel r s w valid small built fits pending o =
      let out = invoke l show_utf8 registry a (lookup name registry) name request w in
      let (tail, b, d) = dispatch_unary-build laws show_utf8 registry a name request valid small in
      let same : frame ≡ opcode_unary_request ∷ tail = cc in
      let (r1, e1, q1) =
        recvs.read_exact-pending (opcode_unary_request ∷ []) tail r (pending ∙ same) in
      let short : length (recvs.pending r1) ≤ rpc_stream_read_limit =
        rw q1
          (let all : suc (length tail) ≤ rpc_stream_read_limit = rw same at fits in omega arith) in
      let (r2, e2, q2) = recvs.read_to_end-pending rpc_stream_read_limit r1 short in
      (
        answer recv send l show_utf8 debug_strings p registry a out.0 s,
        rw (e1, e2, q1, d w) refl,
        answer-Answered out.0 s o,
      )

  -- A client calls a valid name of at most 4096 bytes, with a request that leaves the frame within
  -- the limit of 8 MiB. Whenever the frame that it builds is pending at the server and the way back
  -- is open, the server writes an answer and finishes the stream. If the registry has a handler for
  -- the name, the server runs it once, in the context of the connection and on exactly the request,
  -- and the client decodes the answer to the handler's response, or to the view of its error. If the
  -- name is unknown, the server runs nothing, and the client decodes the answer to the error for an
  -- unknown method with this name.
  pub handle_inbound_substream-unary :
      (name : Text) (request frame : List ℕ) (fuel : ℕ) (r : R) (s : S) (w : W)
      → is_utf8 name ≡ true
      → length name ≤ max_method_name_len
      → build_unary_request_frame l name request ≡ ok frame
      → length frame ≤ rpc_stream_read_limit
      → recvs.pending r ≡ frame
      → sends.is_open s ≡ true
      → ((h : MethodHandler W) × (lookup name registry ≡ some h)
          × (let out = h (build_inbound_context a) request w in
              (t : S) × (handle_inbound_substream recv send l show_utf8 show_read debug_strings
                  debug_frame p codecs registry a fuel r s w
                ≡ some (t, out.1))
              × Answered sends debug_strings codec (seen sends debug_strings codec out.0) s t))
        ⊎ ((lookup name registry ≡ none)
            × ((t : S) × (handle_inbound_substream recv send l show_utf8 show_read debug_strings
                    debug_frame p codecs registry a fuel r s w
                  ≡ some (t, w))
                × Answered sends debug_strings codec (err (RpcError.unknown_method name)) s t))
  unfolding from_rpc_error into_rpc_error
  handle_inbound_substream-unary name request frame fuel r s w valid small built fits pending o =
      let handled =
        handle_inbound_substream-invoke name request frame fuel r s w valid small built fits pending
          o in
      elim (Option-cases (lookup name registry)) [
        | inr (h, known) ↦ inl (h, known, rw known at handled)
        | inl unknown ↦ inr (unknown, rw unknown at handled)
      ]
