-- ===== src/StreamingCall/Yields.antt =====
-- What the caller of a streaming call is given, whatever the order in which the tasks of the client
-- take their steps.
use nerw_rpc.Prelude.{
  ℕ, suc, ◌+◌, List, [], ◌++◌, append-nil, ◌≡◌, ap, sym, ◌∙◌, arith, true, length,
}
use nerw_rpc.Prelude.Text.{Text}
use nerw_rpc.Result.{Result}
use nerw_rpc.Error.{RpcResult}
use nerw_rpc.External.Leb128.{Leb128}
use nerw_rpc.External.Quic.{RecvStream, RecvLaws, SendStream, ReadExactError}
use nerw_rpc.External.Channel.{collect}
use nerw_rpc.Streaming.{StreamingFrame, Codecs}
use nerw_rpc.Streaming.Format.{CodecsLaws}
use nerw_rpc.Streaming.Sequence.{AreFramesOf}
use nerw_rpc.Client.Tasks.{ClientCall, closed, channels_live, Reached}
use nerw_rpc.Client.Tasks.Inbound.{Reached-ahead, Reached-pump_inbound_responses}
use nerw_rpc.Client.Tasks.Closing.{IsClosedFrom, CanClose, Reached-compose, ahead-CanClose}
use nerw_rpc.StreamingCall.Responses.{answers}
use nerw_rpc.StreamingCall.Items.{items_of, pump-answers}
use nerw_rpc.StreamingCall.Termination.{pump_inbound_responses-Returned}

module _ {R S : Type 0} {recv : RecvStream R} (laws : RecvLaws recv) (stream : SendStream S)
    (l : Leb128) (show_read : ReadExactError → Text) (debug_frame : StreamingFrame → Text) (r₀ : R)
    (s₀ : S) where
  -- Whatever bytes the server sends: from every state that the caller and the two tasks of a streaming
  -- call reach, in any order of their steps, unless the caller has dropped its stream, they can go on
  -- to a state in which the task of the responses is done and the caller has all the items that were
  -- delivered, in their order.
  pub Reached-CanClose :
      (codecs : Codecs) (t : ClientCall R S)
      → Reached recv stream l show_read codecs debug_frame (channels_live r₀ s₀) t
      → t.is_receiving ≡ true
      → CanClose recv stream l show_read codecs debug_frame t
  Reached-CanClose codecs t reached o =
      let (k, f) = Reached-ahead recv stream l show_read codecs debug_frame r₀ s₀ t reached o in
      let fuel = suc (length (laws.pending r₀)) in
      let (end, e) =
        pump_inbound_responses-Returned laws show_read codecs debug_frame collect (k + fuel) r₀ []
          (omega arith) in
      ahead-CanClose recv stream l show_read codecs debug_frame fuel t end o (sym (f fuel) ∙ e)

  module _ {codecs : Codecs} (codecs_laws : CodecsLaws codecs)
      (debug_strings : List Text → Text) where
    closed-items_of :
        (responses : List (RpcResult (List ℕ))) (outcome : Result Text (RpcResult (Unit {0})))
        (wire rest : List ℕ) (t : ClientCall R S) (r : R)
        → AreFramesOf codecs (answers debug_strings responses outcome) wire
        → laws.pending r₀ ≡ wire ++ rest
        → Reached recv stream l show_read codecs debug_frame (channels_live r₀ s₀) t
        → t.is_receiving ≡ true
        → t.response_task ≡ closed r
        → t.yielded ++ t.responses ≡ items_of debug_strings responses outcome
    closed-items_of responses outcome wire rest t r are p reached o c =
        let (k, f) =
          Reached-pump_inbound_responses recv stream l show_read codecs debug_frame r₀ s₀ t r
            reached o c in
        let fuel = suc (length responses) in
        let (s, e, _) =
          pump-answers laws show_read codecs_laws debug_strings debug_frame responses outcome
            (k + fuel) wire rest r₀ [] (omega arith) are p in
        cc (f fuel, e)

    -- When the bytes of the frames that the server writes for a handler's responses are delivered: from
    -- every state that the caller and the two tasks of a streaming call reach, in any order of their
    -- steps, unless the caller has dropped its stream, they can go on to a state in which the task of
    -- the responses is done and the caller has exactly the chunks that the handler sent before its
    -- first error, then that error, or how the handler failed, or nothing if it ended well; and once
    -- that task is done, these are what the caller was given with what is still in its channel.
    pub Reached-yields :
        (responses : List (RpcResult (List ℕ))) (outcome : Result Text (RpcResult (Unit {0})))
        (wire rest : List ℕ) (t : ClientCall R S)
        → AreFramesOf codecs (answers debug_strings responses outcome) wire
        → laws.pending r₀ ≡ wire ++ rest
        → Reached recv stream l show_read codecs debug_frame (channels_live r₀ s₀) t
        → t.is_receiving ≡ true
        → ((u : ClientCall R S) × Reached recv stream l show_read codecs debug_frame t u
            × IsClosedFrom recv stream l show_read codecs debug_frame t u
            × (u.yielded ≡ items_of debug_strings responses outcome))
          × ((r : R)
              → t.response_task ≡ closed r
              → t.yielded ++ t.responses ≡ items_of debug_strings responses outcome)
    Reached-yields responses outcome wire rest t are p reached o =
        let (u, a, c) = Reached-CanClose codecs t reached o in
        let later = Reached-compose recv stream l show_read codecs debug_frame reached a in
        let all =
          closed-items_of responses outcome wire rest u c.last are p later c.is_receiving
            c.is_closed in
        (
          (
            u,
            a,
            c,
            sym (append-nil u.yielded) ∙ ap (λ x. u.yielded ++ x) (sym c.nothing_left) ∙ all,
          ),
          λ r e. closed-items_of responses outcome wire rest t r are p reached o e,
        )
