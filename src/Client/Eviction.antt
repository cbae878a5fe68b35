-- ===== src/Client/Eviction.antt =====
-- When a unary call drops the connection that nerw-core caches.
use nerw_rpc.Prelude.{
  ℕ, List, [], ◌∷◌, ◌++◌, ◌≡◌, refl, inl, inr, false, Bool-cases, ◌==◌, length, arith,
}
use nerw_rpc.Prelude.Text.{Text, utf8}
use nerw_rpc.Result.{ok, err, Result-cases}
use nerw_rpc.Error.{RpcError, RpcResult}
use nerw_rpc.WireError.{WireError, into_rpc_error}
use nerw_rpc.Wire.{opcode_unary_response, opcode_unary_error, encode_method_name}
use nerw_rpc.Context.{NodeId}
use nerw_rpc.Transport.{alpn_nerw_rpc_1_0_0}
use nerw_rpc.Io.{Io-cases}
use nerw_rpc.External.Leb128.{Leb128}
use nerw_rpc.External.Network.{Network}
use nerw_rpc.External.Postcard.{Postcard}
use nerw_rpc.Server.Frame.{build_unary_request_frame}
use nerw_rpc.Client.{
  call, call_inner, open_substream, exchange, evict_after, decode_response_frame,
  is_transport_io_error, rpc_response_read_limit,
}

module _ {N : Type 0} (net : Network N) (l : Leb128) (p : Postcard WireError)
    (show_node : NodeId → Text) (peer : NodeId) where
  abbrev evict : N → N
  evict = net.evict_cached_connection peer alpn_nerw_rpc_1_0_0

  -- The ways in which a call ends, each with what the crates returned, the result and the state.
  pub data Outcome (method_name : Text) (request : List ℕ) (n : N)
      : RpcResult (List ℕ) × N → Type 0 where
    unframed :
        {e : RpcError}
        → build_unary_request_frame l method_name request ≡ err e
        → is_transport_io_error e ≡ false
        → Outcome method_name request n (err e, n)
    unreachable :
        {frame : List ℕ} {e : Text} {n1 : N}
        → build_unary_request_frame l method_name request ≡ ok frame
        → net.open_substream peer alpn_nerw_rpc_1_0_0 n ≡ (err e, n1)
        → Outcome method_name request n
            (err (RpcError.transport_open_substream (show_node peer) e), n1)
    write_failed :
        {frame : List ℕ} {stream : net.Stream} {e : Text} {n1 n2 : N}
        → build_unary_request_frame l method_name request ≡ ok frame
        → net.open_substream peer alpn_nerw_rpc_1_0_0 n ≡ (ok stream, n1)
        → (net.send stream).write_all frame n1 ≡ (err e, n2)
        → Outcome method_name request n
            (err (RpcError.transport_write (utf8 "write_all: " ++ e)), evict n2)
    finish_failed :
        {frame : List ℕ} {stream : net.Stream} {e : Text} {n1 n2 n3 : N}
        → build_unary_request_frame l method_name request ≡ ok frame
        → net.open_substream peer alpn_nerw_rpc_1_0_0 n ≡ (ok stream, n1)
        → (net.send stream).write_all frame n1 ≡ (ok tt, n2)
        → (net.send stream).finish n2 ≡ (err e, n3)
        → Outcome method_name request n
            (err (RpcError.transport_write (utf8 "finish: " ++ e)), evict n3)
    read_failed :
        {frame : List ℕ} {stream : net.Stream} {e : Text} {n1 n2 n3 n4 : N}
        → build_unary_request_frame l method_name request ≡ ok frame
        → net.open_substream peer alpn_nerw_rpc_1_0_0 n ≡ (ok stream, n1)
        → (net.send stream).write_all frame n1 ≡ (ok tt, n2)
        → (net.send stream).finish n2 ≡ (ok tt, n3)
        → (net.recv stream).read_to_end rpc_response_read_limit n3 ≡ (err e, n4)
        → Outcome method_name request n
            (err (RpcError.transport_read (utf8 "read_to_end: " ++ e)), evict n4)
    answered :
        {frame response : List ℕ} {stream : net.Stream} {n1 n2 n3 n4 : N}
        → build_unary_request_frame l method_name request ≡ ok frame
        → net.open_substream peer alpn_nerw_rpc_1_0_0 n ≡ (ok stream, n1)
        → (net.send stream).write_all frame n1 ≡ (ok tt, n2)
        → (net.send stream).finish n2 ≡ (ok tt, n3)
        → (net.recv stream).read_to_end rpc_response_read_limit n3 ≡ (ok response, n4)
        → Outcome method_name request n (decode_response_frame p response, n4)

  -- What a server sends is never taken for a failure of the transport.
  into_rpc_error_lem : (w : WireError) → is_transport_io_error (into_rpc_error w) ≡ false
  unfolding into_rpc_error is_transport_io_error
  into_rpc_error_lem (WireError.unknown_method _) = refl
  into_rpc_error_lem (WireError.version_mismatch _ _) = refl
  into_rpc_error_lem (WireError.invalid_method_name _) = refl
  into_rpc_error_lem (WireError.malformed_frame _) = refl
  into_rpc_error_lem (WireError.handler_error _) = refl
  into_rpc_error_lem (WireError.codec _) = refl

  pub evict_after-answer :
      (response : List ℕ) (n : N)
      → evict_after net l p show_node peer (decode_response_frame p response, n)
        ≡ (decode_response_frame p response, n)
  unfolding decode_response_frame is_transport_io_error
  evict_after-answer [] n = refl
  evict_after-answer (opcode ∷ body) n = elim (Bool-cases (opcode == opcode_unary_response)) [
    | inl success ↦ rw success refl
    | inr e ↦ elim (Bool-cases (opcode == opcode_unary_error)) [
      | inl failure ↦ elim (Result-cases (p.from_bytes body)) [
        | inl (w, d) ↦ rw (e, failure, d) (rw (into_rpc_error_lem w) refl)
        | inr (x, d) ↦ rw (e, failure, d) refl
      ]
      | inr other ↦ rw (e, other) refl
    ]
  ]

  frame-eq-err :
      (method_name : Text) (request : List ℕ) (e : RpcError)
      → build_unary_request_frame l method_name request ≡ err e
      → is_transport_io_error e ≡ false
  unfolding build_unary_request_frame encode_method_name is_transport_io_error
  frame-eq-err method_name request e h = elim (Result-cases (l.write (length method_name))) [
    | inl (bytes, w) ↦ cc
    | inr (x, w) ↦ ground arith
  ]

  exchange-Outcome :
      (method_name : Text) (request frame : List ℕ) (stream : net.Stream) (n n1 : N)
      → build_unary_request_frame l method_name request ≡ ok frame
      → net.open_substream peer alpn_nerw_rpc_1_0_0 n ≡ (ok stream, n1)
      → Outcome method_name request n
          (evict_after net l p show_node peer (exchange net l p show_node peer frame stream n1))
  unfolding exchange is_transport_io_error
  exchange-Outcome method_name request frame stream n n1 f o =
      elim (Io-cases ((net.send stream).write_all frame n1)) [
        | inr (e, n2, w) ↦ rw w (write_failed f o w)
        | inl (tt, n2, w) ↦ elim (Io-cases ((net.send stream).finish n2)) [
          | inr (e, n3, c) ↦ rw (w, c) (finish_failed f o w c)
          | inl (tt, n3, c) ↦
              elim (Io-cases ((net.recv stream).read_to_end rpc_response_read_limit n3)) [
                | inr (e, n4, d) ↦ rw (w, c, d) (read_failed f o w c d)
                | inl (response, n4, d) ↦
                    rw (w, c, d) (rw (evict_after-answer response n4) (answered f o w c d))
              ]
        ]
      ]

  -- A call ends in one of six ways. If writing the frame, finishing the stream or reading the response
  -- failed, it evicts the cached connection. In the other three it evicts nothing itself: if the frame
  -- was not built, if the substream was not opened, which leaves what that attempt left, or if any
  -- response arrived, an error or garbage included.
  pub call-Outcome :
      (method_name : Text) (request : List ℕ) (n : N)
      → Outcome method_name request n (call net l p show_node peer method_name request n)
  unfolding call call_inner open_substream is_transport_io_error
  call-Outcome method_name request n =
      elim (Result-cases (build_unary_request_frame l method_name request)) [
        | inr (e, f) ↦ rw f (
            rw (frame-eq-err method_name request e f)
              (unframed f (frame-eq-err method_name request e f)))
        | inl (frame, f) ↦ elim (Io-cases (net.open_substream peer alpn_nerw_rpc_1_0_0 n)) [
          | inr (e, n1, o) ↦ rw (f, o) (unreachable f o)
          | inl (stream, n1, o) ↦
              rw (f, o) (exchange-Outcome method_name request frame stream n n1 f o)
        ]
      ]
