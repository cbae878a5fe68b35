-- ===== src/Client/Tasks/Outbound.antt =====
-- The task of the requests writes what the sequential pump does, whatever the other tasks do.
use nerw_rpc.Prelude.{
  ℕ, ◌≤◌, List, [], ◌∷◌, ◌++◌, append_assoc, append-nil, ◌≡◌, ◌≢◌, refl, ap, sym, ◌∙◌, Option, none,
  some, Bool, true, false, length, length-append, arith,
}
use nerw_rpc.Prelude.Text.{Text}
use nerw_rpc.Result.{ok, err}
use nerw_rpc.Error.{RpcResult}
use nerw_rpc.External.Leb128.{Leb128}
use nerw_rpc.External.Quic.{RecvStream, SendStream, ReadExactError}
use nerw_rpc.Streaming.{StreamingFrame, Codecs}
use nerw_rpc.Streaming.Read.{read_streaming_frame}
use nerw_rpc.Streaming.Write.{write_request_chunk}
use nerw_rpc.Client.Streaming.{after_request, pump_outbound_requests}
use nerw_rpc.Client.Tasks.{
  RequestTask, pumping, pumped, aborted, ResponseTask, reading, delivering, returned, closed,
  Afterwards, read_unless_dropped, read_on, stop, ClientCall, channels_live, after_request_write,
  on_frame, after_delivery, abort_requests, Step, send_request, drop_sender, take_response,
  drop_stream, write_request, end_requests, read_frame, deliver, deliver_dropped, abort, Reached,
  here, next, call_capacity,
}

abbrev is_closed : {R : Type 0} → ResponseTask R → Bool
is_closed (reading r) = false
is_closed (delivering item after r) = false
is_closed (returned r) = false
is_closed (closed r) = true

abbrev is_pumping : {S : Type 0} → RequestTask S → Bool
is_pumping (pumping s) = true
is_pumping (pumped s) = false
is_pumping aborted = false

is_closed-after_delivery :
    {R : Type 0}
    → (after : Afterwards) (b : Bool) (r : R) → is_closed (after_delivery after b r) ≡ false
is_closed-after_delivery read_unless_dropped true r = refl
is_closed-after_delivery read_unless_dropped false r = refl
is_closed-after_delivery read_on b r = refl
is_closed-after_delivery stop b r = refl

is_closed-on_frame :
    {R : Type 0}
    → (debug_frame : StreamingFrame → Text) (y : RpcResult (Option StreamingFrame) × R)
    → is_closed (on_frame debug_frame y) ≡ false
is_closed-on_frame debug_frame (ok none, r) = refl
is_closed-on_frame debug_frame (ok (some StreamingFrame.response_end), r) = refl
is_closed-on_frame debug_frame (ok (some (StreamingFrame.response_chunk bytes)), r) = refl
is_closed-on_frame debug_frame (ok (some (StreamingFrame.error e)), r) = refl
is_closed-on_frame debug_frame (ok (some other), r) = refl
is_closed-on_frame debug_frame (err e, r) = refl

is_pumping-abort_requests :
    {S : Type 0} → (x : RequestTask S) → is_pumping (abort_requests x) ≡ false
is_pumping-abort_requests (pumping s) = refl
is_pumping-abort_requests (pumped s) = refl
is_pumping-abort_requests aborted = refl

module _ {R S : Type 0} (recv : RecvStream R) (stream : SendStream S) (l : Leb128)
    (show_read : ReadExactError → Text) (codecs : Codecs) (debug_frame : StreamingFrame → Text)
    (r₀ : R) (s₀ : S) where
  -- What the sequential pump makes of the chunks so far, and of those still to come.
  abbrev Leaves : RequestTask S → List (List ℕ) → List (List ℕ) → Type 0
  Leaves (pumping s) sent requests =
      (more : List (List ℕ))
      → pump_outbound_requests stream l (sent ++ more) s₀
        ≡ pump_outbound_requests stream l (requests ++ more) s
  Leaves (pumped s) sent requests = pump_outbound_requests stream l sent s₀ ≡ s
  Leaves aborted sent requests = Unit {0}

  Leaves-write :
      (sent rest : List (List ℕ)) (y : RpcResult (Unit {0}) × S)
      → ((more : List (List ℕ))
          → pump_outbound_requests stream l (sent ++ more) s₀
            ≡ after_request stream l (pump_outbound_requests stream l (rest ++ more)) y)
      → Leaves (after_request_write y) sent rest
  Leaves-write sent rest (ok _, s) h = h
  Leaves-write sent rest (err _, s) h =
      ap (λ x. pump_outbound_requests stream l x s₀) (sym (append-nil sent)) ∙ h []

  Leaves-send :
      (sent requests : List (List ℕ)) (chunk : List ℕ) (s : S)
      → Leaves (pumping s) sent requests
      → Leaves (pumping s) (sent ++ (chunk ∷ [])) (requests ++ (chunk ∷ []))
  Leaves-send sent requests chunk s h more =
      rw (append_assoc sent (chunk ∷ []) more, append_assoc requests (chunk ∷ []) more)
        (h (chunk ∷ more))

  Leaves-end :
      (sent : List (List ℕ)) (s : S)
      → Leaves (pumping s) sent []
      → pump_outbound_requests stream l sent s₀ ≡ pump_outbound_requests stream l [] s
  Leaves-end sent s h =
      ap (λ x. pump_outbound_requests stream l x s₀) (sym (append-nil sent)) ∙ h []

  Leaves-abort :
      (sent requests : List (List ℕ)) (x : RequestTask S)
      → Leaves x sent requests
      → Leaves (abort_requests x) sent requests
  Leaves-abort sent requests (pumping s) h = tt
  Leaves-abort sent requests (pumped s) h = h
  Leaves-abort sent requests aborted h = tt

  -- What is written so far, the bounds of the channels, and the end of one task with the other.
  record IsInOrder (t : ClientCall R S) : Type 0 where
    pub leaves : Leaves t.request_task t.sent t.requests
    pub few_requests : length t.requests ≤ call_capacity
    pub few_responses : length t.responses ≤ call_capacity
    pub stopped : is_closed t.response_task ≡ true → is_pumping t.request_task ≡ false

  Step-IsInOrder :
      (t u : ClientCall R S)
      → Step recv stream l show_read codecs debug_frame t u
      → IsInOrder t
      → IsInOrder u
  unfolding pump_outbound_requests
  Step-IsInOrder t _ (send_request chunk s e p room) b = record {
    leaves = rw p (Leaves-send t.sent t.requests chunk s (rw p at b.leaves));
    few_requests = omega (arith, length-append t.requests (chunk ∷ []));
    few_responses = b.few_responses;
    stopped = b.stopped;
  }
  Step-IsInOrder t _ drop_sender b = record {
    leaves = b.leaves;
    few_requests = b.few_requests;
    few_responses = b.few_responses;
    stopped = b.stopped;
  }
  Step-IsInOrder t _ (take_response item rest o e) b = record {
    leaves = b.leaves;
    few_requests = b.few_requests;
    few_responses = omega (arith, b.few_responses, ap length e);
    stopped = b.stopped;
  }
  Step-IsInOrder t _ drop_stream b = record {
    leaves = b.leaves;
    few_requests = b.few_requests;
    few_responses = b.few_responses;
    stopped = b.stopped;
  }
  Step-IsInOrder t _ (write_request chunk rest s p e) b = record {
    leaves =
        Leaves-write t.sent rest (write_request_chunk stream l chunk s) (rw (p, e) at b.leaves);
    few_requests = omega (arith, b.few_requests, ap length e);
    few_responses = b.few_responses;
    stopped = λ c. absurd (cc (b.stopped c, ap is_pumping p));
  }
  Step-IsInOrder t _ (end_requests s p e o) b = record {
    leaves = Leaves-end t.sent s (rw (p, e) at b.leaves);
    few_requests = b.few_requests;
    few_responses = b.few_responses;
    stopped = λ c. refl;
  }
  Step-IsInOrder t _ (read_frame r p) b = record {
    leaves = b.leaves;
    few_requests = b.few_requests;
    few_responses = b.few_responses;
    stopped = λ c.
        absurd
          (cc (c, is_closed-on_frame debug_frame (read_streaming_frame recv show_read codecs r)));
  }
  Step-IsInOrder t _ (deliver item after r p o room) b = record {
    leaves = b.leaves;
    few_requests = b.few_requests;
    few_responses = omega (arith, length-append t.responses (item ∷ []));
    stopped = λ c. absurd (cc (c, is_closed-after_delivery after true r));
  }
  Step-IsInOrder t _ (deliver_dropped item after r p o) b = record {
    leaves = b.leaves;
    few_requests = b.few_requests;
    few_responses = b.few_responses;
    stopped = λ c. absurd (cc (c, is_closed-after_delivery after false r));
  }
  Step-IsInOrder t _ (abort r p) b = record {
    leaves = Leaves-abort t.sent t.requests t.request_task b.leaves;
    few_requests = b.few_requests;
    few_responses = b.few_responses;
    stopped = λ c. is_pumping-abort_requests t.request_task;
  }

  Reached-IsInOrder :
      (t : ClientCall R S)
      → Reached recv stream l show_read codecs debug_frame (channels_live r₀ s₀) t
      → IsInOrder t
  Reached-IsInOrder _ here = record {
    leaves = λ more. refl;
    few_requests = omega arith;
    few_responses = omega arith;
    stopped = λ c. absurd (cc c);
  }
  Reached-IsInOrder u (next {t} before step) = Step-IsInOrder t u step (Reached-IsInOrder t before)

  -- In every state that the caller and the two tasks of a streaming call reach, in any order of their
  -- steps: neither channel holds more than 16 items; once the task of the responses is done
  -- and its abort took effect, that of the requests does not run any more; and when the task of the requests has returned without being
  -- aborted, the sending half is as the sequential pump leaves it on all the chunks that the caller has
  -- sent.
  pub Reached-pump_outbound_requests :
      (t : ClientCall R S)
      → Reached recv stream l show_read codecs debug_frame (channels_live r₀ s₀) t
      → (length t.requests ≤ call_capacity)
        × (length t.responses ≤ call_capacity)
        × ((r : R) (s : S) → t.response_task ≡ closed r → t.request_task ≢ pumping s)
        × ((s : S) → t.request_task ≡ pumped s → pump_outbound_requests stream l t.sent s₀ ≡ s)
  Reached-pump_outbound_requests t reached =
      let b = Reached-IsInOrder t reached in
      (
        b.few_requests,
        b.few_responses,
        λ r s c p. absurd (cc (b.stopped (ap is_closed c), ap is_pumping p)),
        λ s p. rw p at b.leaves,
      )
