-- ===== src/Tests/Network.antt =====
-- A call over a network whose peer runs the server, at concrete inputs.
use nerw_rpc.Prelude.{
  ℕ, ◌*◌, ◌≤◌, List, [], ◌∷◌, ◌≡◌, refl, sym, ◌∙◌, ap, arith, false, Option, none, some, leb,
  le→leb, if◌then◌else◌, length, ◌⊎◌,
}
use nerw_rpc.Prelude.Text.{Text, utf8}
use nerw_rpc.Result.{Result, ok, err}
use nerw_rpc.Transport.{alpn_nerw_rpc_1_0_0}
use nerw_rpc.Context.{NodeId}
use nerw_rpc.External.Link.{Link, Phase, opened, sent, finished, closed}
use nerw_rpc.External.Network.{Network}
use nerw_rpc.External.Quic.{finished_early}
use nerw_rpc.Registry.{lookup}
use nerw_rpc.Server.Dispatch.{MethodHandler}
use nerw_rpc.Error.{RpcError}
use nerw_rpc.Context.Inbound.{build_inbound_context}
use nerw_rpc.Server.Inbound.{handle_inbound_substream}
use nerw_rpc.Client.{call}
use nerw_rpc.Unary.Response.{seen}
use nerw_rpc.Unary.OverNetwork.{call-invoke}
use nerw_rpc.Tests.Instances.Leb128.{leb128, leb128_laws}
use nerw_rpc.Tests.Instances.Quic.{recv, recv_laws, send, send_laws, fresh_sent, Sent}
use nerw_rpc.Tests.Instances.Postcard.{wire_error, wire_error_laws, encodes}
use nerw_rpc.Tests.Instances.Shown.{arrival, show_utf8, show_read, debug, debug_frame}
use nerw_rpc.Tests.Instances.Codecs.{codecs}
use nerw_rpc.Tests.Unary.{echo_name, registry, frame, frame_built}

-- The substream in use, and the application of the peer.
record World : Type 0 where
  pub stage : Phase
  pub app : ℕ

abbrev serve : List ℕ → Sent → ℕ → Option (Sent × ℕ)
serve =
    handle_inbound_substream recv send leb128 show_utf8 show_read debug debug_frame wire_error
      codecs registry arrival 0

abbrev deliver : ℕ → Option (Sent × ℕ) → World → Result Text (List ℕ) × World
deliver limit none n = (err (utf8 "reset"), n)
deliver limit (some (t, w)) n =
    if leb (length t.bytes) limit
    then (ok t.bytes, record { stage = closed; app = w })
    else (err (utf8 "stream too long"), n)

abbrev read : ℕ → Phase → World → Result Text (List ℕ) × World
read limit (finished bytes) n = deliver limit (serve bytes fresh_sent n.app) n
read limit _ n = (err (utf8 "not finished"), n)

abbrev write : List ℕ → Phase → World → Result Text (Unit {0}) × World
write bytes opened n = (ok tt, record { stage = sent bytes; app = n.app })
write _ _ n = (err (utf8 "not open"), n)

abbrev finish : Phase → World → Result Text (Unit {0}) × World
finish (sent bytes) n = (ok tt, record { stage = finished bytes; app = n.app })
finish _ n = (err (utf8 "nothing sent"), n)

abbrev network : Network World
network = record {
  Stream = Unit;
  open_substream = λ peer alpn n. (ok tt, record { stage = opened; app = n.app });
  evict_cached_connection = λ peer alpn n. n;
  send = λ stream. record {
    write_all = λ frame n. write frame n.stage n;
    finish = λ n. finish n.stage n;
  };
  recv = λ stream. record {
    read_exact = λ k n. (err (finished_early 0), n);
    read_to_end = λ limit n. read limit n.stage n;
  };
}

abbrev link : Link network recv_laws send_laws serve [] alpn_nerw_rpc_1_0_0
link = record {
  app = λ n. n.app;
  phase = λ stream n. n.stage;
  receiving = λ bytes. bytes;
  sending = fresh_sent;
  receiving-pending = λ bytes. refl;
  sending-written = refl;
  sending-open = refl;
  open-opened = λ n. (tt, record { stage = opened; app = n.app }, refl, refl, refl);
  write_all-sent =
      λ stream bytes n p. (record { stage = sent bytes; app = n.app }, rw p refl, refl, refl);
  finish-finished =
      λ stream bytes n p. (record { stage = finished bytes; app = n.app }, rw p refl, refl, refl);
  read_to_end-served = λ stream bytes limit n t w p served fits.
      (record { stage = closed; app = w }, rw p (rw (served, le→leb _ limit fits) refl), refl);
}

abbrev show_node : NodeId → Text
show_node _ = utf8 "peer"

abbrev ready : World
ready = record { stage = closed; app = 4 }

abbrev answered : Sent
answered = record { bytes = 1 ∷ 7 ∷ 8 ∷ []; live = false }

served : serve frame fresh_sent 4 ≡ some (answered, 5)
unfolding handle_inbound_substream nerw_rpc.Server.Dispatch.handle_unary_stream_with_opcode_consumed
    nerw_rpc.Server.Dispatch.dispatch_unary lookup nerw_rpc.Server.Frame.write_response
    nerw_rpc.Wire.decode_method_name nerw_rpc.Tests.Instances.Leb128.read_groups
    nerw_rpc.Wire.Utf8.is_utf8
served = refl

abbrev or_answered : Option (Sent × ℕ) → Sent
or_answered none = answered
or_answered (some (t, _)) = t

-- The server answers with the opcode and the request.
answer_fits :
    (t : Sent) (w : ℕ) → serve frame fresh_sent 4 ≡ some (t, w) → length t.bytes ≤ 8 * 1024 * 1024
answer_fits t w h =
    let same : t ≡ answered = ap (λ o. or_answered o) (sym h ∙ served) in rw same (omega arith)

call-invoke_example :
    ((h : MethodHandler ℕ) × (lookup echo_name registry ≡ some h)
      × (let out = h (build_inbound_context arrival) (7 ∷ 8 ∷ []) 4 in
          (m : World) × (call network leb128 wire_error show_node [] echo_name (7 ∷ 8 ∷ []) ready
            ≡ (seen send_laws debug wire_error_laws out.0, m))
          × (m.app ≡ out.1)))
    ⊎ ((lookup echo_name registry ≡ none)
        × ((m : World) × (call network leb128 wire_error show_node [] echo_name (7 ∷ 8 ∷ []) ready
              ≡ (err (RpcError.unknown_method echo_name), m))
            × (m.app ≡ 4)))
unfolding nerw_rpc.Wire.Utf8.is_utf8
call-invoke_example =
    call-invoke recv_laws send_laws leb128_laws show_utf8 show_read debug debug_frame
      wire_error_laws encodes codecs registry arrival 0 network show_node [] link echo_name
      (7 ∷ 8 ∷ []) frame ready refl (omega arith) frame_built (omega arith) answer_fits
