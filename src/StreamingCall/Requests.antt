-- ===== src/StreamingCall/Requests.antt =====
-- The request chunks, from the caller's sender to the handler's stream.
use nerw_rpc.Prelude.{
  ℕ, zero, suc, ◌<◌, List, [], ◌∷◌, ◌++◌, append_assoc, append-nil, ◌≡◌, refl, ap, ◌∙◌, arith, some,
  true, false, length,
}
use nerw_rpc.Prelude.Text.{Text}
use nerw_rpc.Result.{ok}
use nerw_rpc.Error.{RpcResult}
use nerw_rpc.External.Leb128.{Leb128, Leb128Laws}
use nerw_rpc.External.Quic.{RecvStream, RecvLaws, SendStream, SendLaws, ReadExactError}
use nerw_rpc.External.Channel.{collect}
use nerw_rpc.Streaming.{StreamingFrame, Codecs}
use nerw_rpc.Streaming.Format.{CodecsLaws}
use nerw_rpc.Streaming.Sequence.{AreFramesOf, no_frame, one_more}
use nerw_rpc.Streaming.Read.Frames.{read_streaming_frame-pending}
use nerw_rpc.Streaming.RoundTrip.{write_frame-Wrote}
use nerw_rpc.Server.Pump.{pump_inbound_requests}
use nerw_rpc.Client.Streaming.{pump_outbound_requests}

-- A frame for every chunk, and the one that ends the requests.
abbrev pub request_frames : List (List ℕ) → List StreamingFrame
request_frames [] = StreamingFrame.request_end ∷ []
request_frames (chunk ∷ rest) = StreamingFrame.request_chunk chunk ∷ request_frames rest

-- What the handler's stream yields of the chunks.
abbrev pub delivered : List (List ℕ) → List (RpcResult (List ℕ))
delivered [] = []
delivered (chunk ∷ rest) = ok chunk ∷ delivered rest

module _ {S : Type 0} {send : SendStream S} (sends : SendLaws send) {l : Leb128}
    (laws : Leb128Laws l) (c : Codecs) where
  -- Once the caller dropped its sender, all its chunks are on the wire, behind them the frame that
  -- ends the requests, and the sending half is finished.
  pub pump_outbound_requests-written :
      (chunks : List (List ℕ)) (wire : List ℕ) (s : S)
      → AreFramesOf c (request_frames chunks) wire
      → sends.is_open s ≡ true
      → (sends.written (pump_outbound_requests send l chunks s) ≡ sends.written s ++ wire)
        × (sends.is_open (pump_outbound_requests send l chunks s) ≡ false)
  unfolding pump_outbound_requests
  pump_outbound_requests-written [] _ s (one_more {wire} i no_frame) o =
      let (t, e, w, u) = write_frame-Wrote sends laws c StreamingFrame.request_end wire s i o in
      let (v, f, x, y) = sends.finish-written t u in
      rw (pump_outbound_requests, append-nil wire, e, f) (x ∙ w, y)
  pump_outbound_requests-written (chunk ∷ more) _ s (one_more {wire} {rest = tail} i is) o =
      let (t, e, w, u) =
        write_frame-Wrote sends laws c (StreamingFrame.request_chunk chunk) wire s i o in
      let (v, x) = pump_outbound_requests-written more tail t is u in
      rw e (v ∙ ap (λ b. b ++ tail) w ∙ append_assoc (sends.written s) wire tail, x)

module _ {R : Type 0} {recv : RecvStream R} (laws : RecvLaws recv)
    (show_read : ReadExactError → Text) {c : Codecs} (codecs_laws : CodecsLaws c)
    (debug_frame : StreamingFrame → Text) where
  pub pump_inbound_requests-frames :
      (chunks : List (List ℕ)) (fuel : ℕ) (wire rest : List ℕ) (r : R)
      (items : List (RpcResult (List ℕ)))
      → length chunks < fuel
      → AreFramesOf c (request_frames chunks) wire
      → laws.pending r ≡ wire ++ rest
      → (s : R) × (pump_inbound_requests recv show_read c debug_frame collect fuel r items
          ≡ some (s, items ++ delivered chunks))
        × (laws.pending s ≡ rest)
  unfolding pump_inbound_requests
  pump_inbound_requests-frames chunks zero wire rest r items h a p = absurd (omega arith)
  pump_inbound_requests-frames [] (suc fuel) _ rest r items h (one_more {wire} i no_frame) p =
      let (s, d, q) =
        read_streaming_frame-pending laws show_read codecs_laws StreamingFrame.request_end wire rest
          r i (p ∙ append_assoc wire [] rest) in
      (s, rw (d, append-nil items) refl, q)
  pump_inbound_requests-frames (chunk ∷ more) (suc fuel) _ rest r items h
        (one_more {wire} {rest = tail} i is) p =
      let (s, d, q) =
        read_streaming_frame-pending laws show_read codecs_laws (StreamingFrame.request_chunk chunk)
          wire (tail ++ rest) r i (p ∙ append_assoc wire tail rest) in
      let (t, e, u) =
        pump_inbound_requests-frames more fuel tail rest s (items ++ (ok chunk ∷ [])) (omega arith)
          is q in
      (t, rw d (e ∙ ap (λ l. some (t, l)) (append_assoc items (ok chunk ∷ []) _)), u)
