-- ===== src/Server/Dispatch.antt =====
-- src/server.rs and src/method.rs: the dispatch of a unary call whose opcode was read.
use nerw_rpc.Prelude.{
  ℕ, ◌-◌, List, [], ◌∷◌, ◌++◌, Option, none, some, length, drop, if◌then◌else◌, ◌==◌,
}
use nerw_rpc.Prelude.Text.{Text, utf8, hex2}
use nerw_rpc.Result.{Result, ok, err}
use nerw_rpc.Error.{RpcError, RpcResult}
use nerw_rpc.WireError.{WireError}
use nerw_rpc.Wire.{opcode_unary_request, decode_method_name}
use nerw_rpc.Registry.{MethodRegistry, lookup}
use nerw_rpc.Context.{RpcContext}
use nerw_rpc.Context.Inbound.{Arrival, build_inbound_context}
use nerw_rpc.Io.{Io, ◌>>=◌, lift}
use nerw_rpc.External.Leb128.{Leb128}
use nerw_rpc.External.Quic.{RecvStream, SendStream}
use nerw_rpc.External.Postcard.{Postcard}
use nerw_rpc.Server.{rpc_stream_read_limit}
use nerw_rpc.Server.Frame.{write_response, write_error}

-- `MethodHandler`: a handler reads and changes the application's state `W`.
abbrev pub MethodHandler : Type 0 → Type 0
MethodHandler W = RpcContext → List ℕ → Io W (List ℕ)

module _ {W H : Type 0} (l : Leb128) (show_utf8 : Text → Text)
    (registry : MethodRegistry (MethodHandler W) H) (a : Arrival) where
  -- `ok_or` of the lookup, and the call of the handler.
  abbrev pub invoke : Option (MethodHandler W) → Text → List ℕ → Io W (List ℕ)
  invoke none method_name payload = lift (err (RpcError.unknown_method method_name))
  invoke (some handler) method_name payload = handler (build_inbound_context a) payload

  -- The payload is the frame without the prefix that was consumed.
  abbrev pub dispatch_decoded : List ℕ → Text × List ℕ → Io W (List ℕ)
  dispatch_decoded buf (method_name, payload_slice) =
      invoke (lookup method_name registry) method_name
        (drop (length buf - length payload_slice) buf)

  unfoldable pub dispatch_unary : List ℕ → Io W (List ℕ)
  dispatch_unary [] = lift (err (RpcError.malformed_frame (utf8 "empty request frame")))
  dispatch_unary (opcode ∷ rest) =
      if opcode == opcode_unary_request
      then lift (decode_method_name l show_utf8 rest) >>= dispatch_decoded (opcode ∷ rest)
      else lift (
          err (
            RpcError.malformed_frame (
              utf8 "expected unary-request opcode 0x"
              ++ (hex2 opcode_unary_request ++ (utf8 ", got 0x" ++ hex2 opcode)))))

module _ {R S W H : Type 0} (recv : RecvStream R) (send : SendStream S) (l : Leb128)
    (show_utf8 : Text → Text) (debug_strings : List Text → Text) (p : Postcard WireError)
    (registry : MethodRegistry (MethodHandler W) H) (a : Arrival) where
  -- The answer to the outcome of the dispatch; a failure to write it is only logged.
  abbrev pub answer : RpcResult (List ℕ) → S → S
  answer (ok response) s = (write_response send response s).1
  answer (err e) s = (write_error send debug_strings p e s).1

  abbrev after_read : Result Text (List ℕ) → S → W → S × W
  after_read (err e) s w = (s, w)
  after_read (ok tail) s w =
      let out = dispatch_unary l show_utf8 registry a (opcode_unary_request ∷ tail) w in
      (answer out.0 s, out.1)

  unfoldable pub handle_unary_stream_with_opcode_consumed : R → S → W → S × W
  handle_unary_stream_with_opcode_consumed r s w =
      after_read (recv.read_to_end rpc_stream_read_limit r).0 s w
