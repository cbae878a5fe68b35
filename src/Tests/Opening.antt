-- ===== src/Tests/Opening.antt =====
-- The opening of a streaming call over a network, at concrete inputs.
use nerw_rpc.Prelude.{
  ℕ, List, [], ◌∷◌, ◌++◌, append-nil, ap, sym, ◌≡◌, refl, arith, Bool, true, false, Option,
}
use nerw_rpc.Prelude.Text.{Text, utf8}
use nerw_rpc.Result.{Result, ok, err}
use nerw_rpc.Wire.{opcode_streaming_open_request}
use nerw_rpc.Transport.{alpn_nerw_rpc_1_0_0}
use nerw_rpc.Registry.{lookup_streaming}
use nerw_rpc.Context.{NodeId}
use nerw_rpc.External.Link.{StreamLink}
use nerw_rpc.External.Network.{Network}
use nerw_rpc.External.Quic.{RecvStream, RecvLaws}
use nerw_rpc.Streaming.{StreamingFrame}
use nerw_rpc.Client.Streaming.{call_streaming}
use nerw_rpc.StreamingCall.OverNetwork.{negotiated, result_for, call_streaming-lookup}
use nerw_rpc.Tests.Instances.Leb128.{leb128, leb128_laws}
use nerw_rpc.Tests.Instances.Quic.{recv, recv_laws, send_laws, fresh_sent, Sent}
use nerw_rpc.Tests.Instances.Postcard.{wire_error}
use nerw_rpc.Tests.Instances.Shown.{arrival, show_read, debug, debug_frame}
use nerw_rpc.Tests.Instances.Codecs.{codecs, codecs_laws}
use nerw_rpc.Tests.Calls.{registry, feed_name, ack_wire-IsFrameOf}

-- The substream in use: whether it was just opened, and what its client can read.
record World : Type 0 where
  pub is_fresh : Bool
  pub pending : List ℕ

abbrev reading : {A : Type 0} → A × List ℕ → World → A × World
reading (a, rest) n = (a, record { is_fresh = n.is_fresh; pending = rest })

abbrev incoming : RecvStream World
incoming = record {
  read_exact = λ k n. reading (recv.read_exact k n.pending) n;
  read_to_end = λ limit n. reading (recv.read_to_end limit n.pending) n;
}

abbrev incoming_laws : RecvLaws incoming
incoming_laws = record {
  pending = λ n. n.pending;
  read_exact-pending = λ a b n p.
      let (s, e, q) = recv_laws.read_exact-pending a b n.pending p in
      (record { is_fresh = n.is_fresh; pending = s }, ap (λ x. reading x n) e, q);
  read_exact-short = λ k n h.
      let (s, e) = recv_laws.read_exact-short k n.pending h in
      (record { is_fresh = n.is_fresh; pending = s }, ap (λ x. reading x n) e);
  read_to_end-pending = λ limit n h.
      let (s, e, q) = recv_laws.read_to_end-pending limit n.pending h in
      (record { is_fresh = n.is_fresh; pending = s }, ap (λ x. reading x n) e, q);
  read_to_end-long = λ limit n h.
      let (s, x, e) = recv_laws.read_to_end-long limit n.pending h in
      (record { is_fresh = n.is_fresh; pending = s }, x, ap (λ x. reading x n) e);
}

abbrev answer : List ℕ → Sent → Sent
answer =
    negotiated recv_laws send_laws leb128_laws show_read debug debug_frame codecs_laws registry
      arrival

abbrev write : List ℕ → Bool → World → Result Text (Unit {0}) × World
write (opcode ∷ frame) true n =
    (ok tt, record { is_fresh = false; pending = (answer frame fresh_sent).bytes })
write _ _ n = (err (utf8 "not open"), n)

abbrev network : Network World
network = record {
  Stream = Unit;
  open_substream = λ peer alpn n. (ok tt, record { is_fresh = true; pending = [] });
  evict_cached_connection = λ peer alpn n. n;
  send = λ stream. record {
    write_all = λ bytes n. write bytes n.is_fresh n;
    finish = λ n. (ok tt, n);
  };
  recv = λ stream. incoming;
}

abbrev link :
    StreamLink network recv_laws send_laws answer opcode_streaming_open_request []
      alpn_nerw_rpc_1_0_0
link = record {
  is_fresh = λ stream n. n.is_fresh;
  incoming = λ stream. incoming_laws;
  receiving = λ frame. frame;
  sending = fresh_sent;
  receiving-pending = λ frame. refl;
  sending-written = refl;
  sending-open = refl;
  open-fresh = λ n. (tt, record { is_fresh = true; pending = [] }, refl, refl);
  write_all-answered = λ stream frame n fresh. (
    [],
    record { is_fresh = false; pending = (answer frame fresh_sent).bytes },
    rw fresh refl,
    sym (append-nil (answer frame fresh_sent).bytes),
  );
}

abbrev show_node : NodeId → Text
show_node _ = utf8 "peer"

abbrev debug_ack : Option StreamingFrame → Text
debug_ack _ = utf8 "frame"

abbrev ready : World
ready = record { is_fresh = false; pending = [] }

call_streaming-lookup_example :
    (stream : Unit {0}) × (m : World) × (call_streaming network leb128 wire_error codecs show_node
        show_read debug_ack [] feed_name 1 ready
      ≡ (result_for (lookup_streaming feed_name registry) feed_name stream, 2, m))
unfolding lookup_streaming
call_streaming-lookup_example =
    call_streaming-lookup recv_laws send_laws leb128_laws show_read debug debug_frame codecs_laws
      registry arrival network wire_error show_node debug_ack [] link feed_name 1 ready
      (12 ∷ (feed_name ++ (1 ∷ []))) (0x11 ∷ 2 ∷ 0 ∷ 1 ∷ []) refl (omega arith) ack_wire-IsFrameOf
