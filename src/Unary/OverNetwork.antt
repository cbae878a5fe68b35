-- ===== src/Unary/OverNetwork.antt =====
-- A client's call over a network whose peer runs the server.
use nerw_rpc.Prelude.{ℕ, ◌≤◌, List, ◌≡◌, ap, ◌∙◌, true, length, none, some, ◌⊎◌, inl, inr}
use nerw_rpc.Prelude.Text.{Text}
use nerw_rpc.Result.{ok, err}
use nerw_rpc.Error.{RpcError, RpcResult}
use nerw_rpc.WireError.{WireError}
use nerw_rpc.Wire.{max_method_name_len}
use nerw_rpc.Wire.Utf8.{is_utf8}
use nerw_rpc.Transport.{alpn_nerw_rpc_1_0_0}
use nerw_rpc.Registry.{MethodRegistry, lookup}
use nerw_rpc.Context.{NodeId}
use nerw_rpc.Context.Inbound.{Arrival, build_inbound_context}
use nerw_rpc.External.Leb128.{Leb128, Leb128Laws}
use nerw_rpc.External.Link.{Link}
use nerw_rpc.External.Network.{Network}
use nerw_rpc.External.Postcard.{Postcard, PostcardLaws}
use nerw_rpc.External.Quic.{RecvStream, RecvLaws, SendStream, SendLaws, ReadExactError}
use nerw_rpc.Streaming.{StreamingFrame, Codecs}
use nerw_rpc.Server.{rpc_stream_read_limit}
use nerw_rpc.Server.Frame.{build_unary_request_frame}
use nerw_rpc.Server.Dispatch.{MethodHandler}
use nerw_rpc.Server.Streaming.{StreamingMethodHandler}
use nerw_rpc.Server.Inbound.{handle_inbound_substream}
use nerw_rpc.Client.{rpc_response_read_limit, open_substream, exchange, call_inner, call}
use nerw_rpc.Client.Eviction.{evict_after-answer}
use nerw_rpc.Unary.Response.{seen, Answered}
use nerw_rpc.Unary.EndToEnd.{handle_inbound_substream-unary}

module _ {R S W N : Type 0} {recv : RecvStream R} (recvs : RecvLaws recv) {send : SendStream S}
    (sends : SendLaws send) {l : Leb128} (laws : Leb128Laws l) (show_utf8 : Text → Text)
    (show_read : ReadExactError → Text) (debug_strings : List Text → Text)
    (debug_frame : StreamingFrame → Text) {p : Postcard WireError} (codec : PostcardLaws p)
    (encodes : (e : WireError) → (body : List ℕ) × (p.to_allocvec e ≡ ok body)) (codecs : Codecs)
    (registry : MethodRegistry (MethodHandler W) (StreamingMethodHandler W)) (a : Arrival)
    (fuel : ℕ) (net : Network N) (show_node : NodeId → Text) (peer : NodeId)
    (link : Link net recvs sends
      (handle_inbound_substream recv send l show_utf8 show_read debug_strings debug_frame p codecs
        registry a fuel)
      peer
      alpn_nerw_rpc_1_0_0) where
  -- What the server answers is what the call returns.
  call_of_handled :
      (name : Text) (request frame : List ℕ) (n : N) (result : RpcResult (List ℕ)) (w : W)
      → build_unary_request_frame l name request ≡ ok frame
      → ((t : S) (w : W)
          → handle_inbound_substream recv send l show_utf8 show_read debug_strings debug_frame p
              codecs registry a fuel
              (link.receiving frame)
              link.sending
              (link.app n)
            ≡ some (t, w)
          → length (sends.written t) ≤ rpc_response_read_limit)
      → ((t : S) × (handle_inbound_substream recv send l show_utf8 show_read debug_strings
              debug_frame p codecs registry a fuel
              (link.receiving frame)
              link.sending
              (link.app n)
            ≡ some (t, w))
          × Answered sends debug_strings codec result link.sending t)
      → (m : N) × (call net l p show_node peer name request n ≡ (result, m)) × (link.app m ≡ w)
  unfolding call call_inner open_substream exchange
  call_of_handled name request frame n result w built answer (t, handled, answered) =
      let (bytes, written, _, decoded) = answered in
      let all : sends.written t ≡ bytes = rw link.sending-written at written in
      let (stream, n1, e1, p1, a1) = link.open-opened n in
      let (n2, e2, p2, a2) = link.write_all-sent stream frame n1 p1 in
      let (n3, e3, p3, a3) = link.finish-finished stream frame n2 p2 in
      let (n4, e4, a4) =
        link.read_to_end-served stream frame rpc_response_read_limit n3 t w p3
          (rw (a3, a2, a1) handled) (answer t w handled) in
      let returned : RpcResult (List ℕ) → RpcResult (List ℕ) × N = λ r. (r, n4) in
      (
        n4,
        rw (built, e1, e2, e3, e4, all)
            (evict_after-answer net l p show_node peer bytes n4 ∙ ap returned decoded),
        a4,
      )

  -- A client calls a valid name of at most 4096 bytes, with a request that leaves the frame within
  -- the limit of 8 MiB, over a network whose peer runs the server, and the server's answer is within
  -- the limit of 8 MiB as well. If the registry has a handler for the name, it is run once, in the
  -- context of the connection and on exactly the request: the call returns its response, or the view
  -- of its error, and leaves the server's application as the handler does. If the name is unknown,
  -- the call returns the error for an unknown method with this name, and leaves the server's
  -- application as it was.
  pub call-invoke :
      (name : Text) (request frame : List ℕ) (n : N)
      → is_utf8 name ≡ true
      → length name ≤ max_method_name_len
      → build_unary_request_frame l name request ≡ ok frame
      → length frame ≤ rpc_stream_read_limit
      → ((t : S) (w : W)
          → handle_inbound_substream recv send l show_utf8 show_read debug_strings debug_frame p
              codecs registry a fuel
              (link.receiving frame)
              link.sending
              (link.app n)
            ≡ some (t, w)
          → length (sends.written t) ≤ rpc_response_read_limit)
      → ((h : MethodHandler W) × (lookup name registry ≡ some h)
          × (let out = h (build_inbound_context a) request (link.app n) in
              (m : N) × (call net l p show_node peer name request n
                ≡ (seen sends debug_strings codec out.0, m))
              × (link.app m ≡ out.1)))
        ⊎ ((lookup name registry ≡ none)
            × ((m : N) × (call net l p show_node peer name request n
                  ≡ (err (RpcError.unknown_method name), m))
                × (link.app m ≡ link.app n)))
  call-invoke name request frame n valid small built fits answer =
      elim (handle_inbound_substream-unary recvs sends laws show_utf8 show_read debug_strings
        debug_frame codec encodes codecs registry a name request frame fuel (link.receiving frame)
        link.sending (link.app n) valid small built fits (link.receiving-pending frame)
        link.sending-open) [
          | inl (h, known, handled) ↦
              inl (h, known, call_of_handled name request frame n _ _ built answer handled)
          | inr (unknown, handled) ↦
              inr (unknown, call_of_handled name request frame n _ _ built answer handled)
        ]
