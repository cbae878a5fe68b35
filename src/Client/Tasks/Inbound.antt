-- ===== src/Client/Tasks/Inbound.antt =====
-- The task of the responses gives the caller what the sequential pump does, whatever the other tasks do.
use nerw_rpc.Prelude.{
  ℕ, suc, ◌+◌, List, [], ◌∷◌, ◌++◌, append_assoc, ◌≡◌, refl, ap, sym, ◌∙◌, Option, none, some, Bool,
  true, false, arith, if◌then◌else◌,
}
use nerw_rpc.Prelude.Text.{Text}
use nerw_rpc.Result.{ok, err}
use nerw_rpc.Error.{RpcResult}
use nerw_rpc.External.Leb128.{Leb128}
use nerw_rpc.External.Quic.{RecvStream, SendStream, ReadExactError}
use nerw_rpc.External.Channel.{collect}
use nerw_rpc.Streaming.{StreamingFrame, Codecs}
use nerw_rpc.Streaming.Read.{read_streaming_frame}
use nerw_rpc.Client.Streaming.{on_response, pump_inbound_responses}
use nerw_rpc.Client.Tasks.{
  ResponseTask, reading, delivering, returned, closed, Afterwards, read_unless_dropped, read_on,
  stop, ClientCall, channels_live, on_frame, after_delivery, Step, send_request, drop_sender,
  take_response, drop_stream, write_request, end_requests, read_frame, deliver, deliver_dropped,
  abort, Reached, here, next,
}

module _ {R : Type 0} (recv : RecvStream R) (show_read : ReadExactError → Text) (codecs : Codecs)
    (debug_frame : StreamingFrame → Text) where
  abbrev pub pump : ℕ → R → List (RpcResult (List ℕ)) → Option (R × List (RpcResult (List ℕ)))
  pump = pump_inbound_responses recv show_read codecs debug_frame collect

  -- What the sequential pump does from here, by the items that the caller was given or that are in the
  -- channel.
  abbrev pub ahead :
      ResponseTask R → List (RpcResult (List ℕ)) → ℕ → Option (R × List (RpcResult (List ℕ)))
  ahead (reading r) items fuel = pump fuel r items
  ahead (delivering item read_unless_dropped r) items fuel = pump fuel r (items ++ (item ∷ []))
  ahead (delivering item read_on r) items fuel = pump fuel r (items ++ (item ∷ []))
  ahead (delivering item stop r) items fuel = some (r, items ++ (item ∷ []))
  ahead (returned r) items fuel = some (r, items)
  ahead (closed r) items fuel = some (r, items)

  ahead-error :
      (b : Bool) (item : RpcResult (List ℕ)) (r : R) (items : List (RpcResult (List ℕ))) (fuel : ℕ)
      → ahead (delivering item (if b then stop else read_on) r) items fuel
        ≡ (if b then some (r, items ++ (item ∷ [])) else pump fuel r (items ++ (item ∷ [])))
  ahead-error true item r items fuel = refl
  ahead-error false item r items fuel = refl

  pub ahead-on_frame :
      (y : RpcResult (Option StreamingFrame) × R) (items : List (RpcResult (List ℕ))) (fuel : ℕ)
      → ahead (on_frame debug_frame y) items fuel
        ≡ on_response recv show_read codecs debug_frame collect (pump fuel) y items
  ahead-on_frame (ok none, r) items fuel = refl
  ahead-on_frame (ok (some StreamingFrame.response_end), r) items fuel = refl
  ahead-on_frame (ok (some (StreamingFrame.response_chunk bytes)), r) items fuel = refl
  ahead-on_frame (ok (some (StreamingFrame.error e)), r) items fuel =
      ahead-error e.terminal _ r items fuel
  ahead-on_frame (ok (some other), r) items fuel = refl
  ahead-on_frame (err e, r) items fuel = refl

  pub ahead-after_delivery :
      (after : Afterwards) (item : RpcResult (List ℕ)) (r : R) (items : List (RpcResult (List ℕ)))
      (fuel : ℕ)
      → ahead (after_delivery after true r) (items ++ (item ∷ [])) fuel
        ≡ ahead (delivering item after r) items fuel
  ahead-after_delivery read_unless_dropped item r items fuel = refl
  ahead-after_delivery read_on item r items fuel = refl
  ahead-after_delivery stop item r items fuel = refl

module _ {R S : Type 0} (recv : RecvStream R) (stream : SendStream S) (l : Leb128)
    (show_read : ReadExactError → Text) (codecs : Codecs) (debug_frame : StreamingFrame → Text)
    (r₀ : R) (s₀ : S) where
  -- The sequential pump comes by this state after some number of frames, unless the caller dropped its
  -- stream.
  Follows : ClientCall R S → Type 0
  Follows t =
      t.is_receiving ≡ true
      → (k : ℕ) × ((fuel : ℕ)
          → pump recv show_read codecs debug_frame (k + fuel) r₀ []
            ≡ ahead recv show_read codecs debug_frame t.response_task (t.yielded ++ t.responses)
                fuel)

  Step-Follows :
      (t u : ClientCall R S)
      → Step recv stream l show_read codecs debug_frame t u
      → Follows t
      → Follows u
  unfolding Follows pump_inbound_responses
  Step-Follows t _ (send_request chunk s e p room) b o = b o
  Step-Follows t _ drop_sender b o = b o
  Step-Follows t _ (take_response item rest e r) b o =
      let (k, f) = b o in (k, λ fuel. rw (append_assoc t.yielded (item ∷ []) rest, sym r) (f fuel))
  Step-Follows t _ drop_stream b o = absurd (cc o)
  Step-Follows t _ (write_request chunk rest s p e) b o = b o
  Step-Follows t _ (end_requests s p e c) b o = b o
  Step-Follows t _ (read_frame r p) b o =
      let (k, f) = b o in
      (
        k + 1,
        λ fuel.
            ap (λ n. pump recv show_read codecs debug_frame n r₀ []) (omega arith)
            ∙ f (suc fuel)
            ∙ rw p (
                sym (
                  ahead-on_frame recv show_read codecs debug_frame
                    (read_streaming_frame recv show_read codecs r) _ fuel)),
      )
  Step-Follows t _ (deliver item after r p c room) b o =
      let (k, f) = b o in
      (
        k,
        λ fuel.
            f fuel
            ∙ rw (p, sym (append_assoc t.yielded t.responses (item ∷ [])))
                (sym (
                  ahead-after_delivery recv show_read codecs debug_frame after item r
                    (t.yielded ++ t.responses) fuel)),
      )
  Step-Follows t _ (deliver_dropped item after r p c) b o = absurd (cc (o, c))
  Step-Follows t _ (abort r p) b o = let (k, f) = b o in (k, λ fuel. f fuel ∙ rw p refl)

  Reached-Follows :
      (t : ClientCall R S)
      → Reached recv stream l show_read codecs debug_frame (channels_live r₀ s₀) t
      → Follows t
  unfolding Follows
  Reached-Follows _ here =
      λ o. (0, λ fuel. ap (λ n. pump recv show_read codecs debug_frame n r₀ []) (omega arith))
  Reached-Follows u (next {t} before step) = Step-Follows t u step (Reached-Follows t before)

  -- The same for the states that are reached.
  pub Reached-ahead :
      (t : ClientCall R S)
      → Reached recv stream l show_read codecs debug_frame (channels_live r₀ s₀) t
      → t.is_receiving ≡ true
      → (k : ℕ) × ((fuel : ℕ)
          → pump recv show_read codecs debug_frame (k + fuel) r₀ []
            ≡ ahead recv show_read codecs debug_frame t.response_task
                (t.yielded ++ t.responses)
                fuel)
  unfolding Follows
  Reached-ahead t reached o = Reached-Follows t reached o

  -- In every state that the caller and the two tasks of a streaming call reach, in any order of their
  -- steps, unless the caller has dropped its stream: once the task of the responses is done, the items
  -- that the caller was given, with those that are still in the channel, are those that the sequential
  -- pump yields, in their order; the sequential pump ends, for every fuel from some number on.
  pub Reached-pump_inbound_responses :
      (t : ClientCall R S) (r : R)
      → Reached recv stream l show_read codecs debug_frame (channels_live r₀ s₀) t
      → t.is_receiving ≡ true
      → t.response_task ≡ closed r
      → (k : ℕ) × ((fuel : ℕ)
          → pump recv show_read codecs debug_frame (k + fuel) r₀ []
            ≡ some (r, t.yielded ++ t.responses))
  Reached-pump_inbound_responses t r reached o c = rw c at (Reached-ahead t reached o)
