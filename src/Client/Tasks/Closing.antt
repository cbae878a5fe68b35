-- ===== src/Client/Tasks/Closing.antt =====
-- The tasks of a streaming call can always be brought to their end.
use nerw_rpc.Prelude.{
  ℕ, zero, suc, List, [], ◌∷◌, ◌++◌, append_assoc, append-nil, ◌≡◌, refl, ap, sym, ◌∙◌, some, true,
  arith,
}
use nerw_rpc.Prelude.Text.{Text}
use nerw_rpc.Error.{RpcResult}
use nerw_rpc.External.Leb128.{Leb128}
use nerw_rpc.External.Quic.{RecvStream, SendStream, ReadExactError}
use nerw_rpc.Streaming.{StreamingFrame, Codecs}
use nerw_rpc.Streaming.Read.{read_streaming_frame}
use nerw_rpc.Client.Streaming.{pump_inbound_responses}
use nerw_rpc.Client.Tasks.{
  ResponseTask, reading, delivering, returned, closed, Afterwards, read_unless_dropped, read_on,
  stop, ClientCall, on_frame, after_delivery, take_response, read_frame, deliver, abort, Reached,
  here, next,
}
use nerw_rpc.Client.Tasks.Inbound.{pump, ahead, ahead-on_frame, ahead-after_delivery}

module _ {R S : Type 0} (recv : RecvStream R) (stream : SendStream S) (l : Leb128)
    (show_read : ReadExactError → Text) (codecs : Codecs)
    (debug_frame : StreamingFrame → Text) where
  abbrev pub From : ClientCall R S → ClientCall R S → Type 0
  From = Reached recv stream l show_read codecs debug_frame

  pub Reached-compose : {t u v : ClientCall R S} → From t u → From u v → From t v
  Reached-compose a here = a
  Reached-compose a (next b step) = next (Reached-compose a b) step

  abbrev pub items : ClientCall R S → List (RpcResult (List ℕ))
  items t = t.yielded ++ t.responses

  -- The caller has all that was read, in the order in which it was read, and the task is done.
  pub record IsClosedFrom (t u : ClientCall R S) : Type 0 where
    pub last : R
    pub more : List (RpcResult (List ℕ))
    pub is_closed : u.response_task ≡ closed last
    pub is_receiving : u.is_receiving ≡ true
    pub nothing_left : u.responses ≡ []
    pub extends : u.yielded ≡ items t ++ more

  abbrev pub CanClose : ClientCall R S → Type 0
  CanClose t = (u : ClientCall R S) × From t u × IsClosedFrom t u

  CanClose-before :
      (t u : ClientCall R S) (more : List (RpcResult (List ℕ)))
      → From t u
      → items u ≡ items t ++ more
      → CanClose u
      → CanClose t
  CanClose-before t u more a e (v, b, c) = (
    v,
    Reached-compose a b,
    record {
      last = c.last;
      more = more ++ c.more;
      is_closed = c.is_closed;
      is_receiving = c.is_receiving;
      nothing_left = c.nothing_left;
      extends = c.extends ∙ ap (λ x. x ++ c.more) e ∙ append_assoc (items t) more c.more;
    },
  )

  -- The caller takes what is in the channel.
  record IsTaken (t u : ClientCall R S) : Type 0 where
    pub same_task : u.response_task ≡ t.response_task
    pub is_receiving : u.is_receiving ≡ true
    pub nothing_left : u.responses ≡ []
    pub all_yielded : u.yielded ≡ items t

  take_all :
      (responses : List (RpcResult (List ℕ))) (t : ClientCall R S)
      → t.responses ≡ responses
      → t.is_receiving ≡ true
      → (u : ClientCall R S) × From t u × IsTaken t u
  take_all [] t e o = (
    t,
    here,
    record {
      same_task = refl;
      is_receiving = o;
      nothing_left = e;
      all_yielded = rw e (sym (append-nil t.yielded));
    },
  )
  take_all (x ∷ rest) t e o =
      let (u, a, i) =
        take_all rest (record t { responses = rest; yielded = t.yielded ++ (x ∷ []) }) refl o in
      (
        u,
        Reached-compose (next here (take_response x rest o e)) a,
        record {
          same_task = i.same_task;
          is_receiving = i.is_receiving;
          nothing_left = i.nothing_left;
          all_yielded = rw e (i.all_yielded ∙ append_assoc t.yielded (x ∷ []) rest);
        },
      )

  closed-CanClose :
      (t : ClientCall R S) (r : R) → t.response_task ≡ closed r → t.is_receiving ≡ true → CanClose t
  closed-CanClose t r c o =
      let (u, a, i) = take_all t.responses t refl o in
      (
        u,
        a,
        record {
          last = r;
          more = [];
          is_closed = i.same_task ∙ c;
          is_receiving = i.is_receiving;
          nothing_left = i.nothing_left;
          extends = i.all_yielded ∙ sym (append-nil (items t));
        },
      )

  returned-CanClose :
      (t : ClientCall R S) (r : R)
      → t.response_task ≡ returned r
      → t.is_receiving ≡ true
      → CanClose t
  returned-CanClose t r c o =
      CanClose-before t _ [] (next here (abort r c)) (sym (append-nil (items t)))
        (closed-CanClose _ r refl o)

  -- The task reads on, and the sequential pump ends from here with the fuel.
  Ends : ℕ → Type 0
  Ends fuel =
      (t : ClientCall R S) (r : R) (end : R × List (RpcResult (List ℕ)))
      → t.response_task ≡ reading r
      → t.is_receiving ≡ true
      → pump recv show_read codecs debug_frame fuel r (items t) ≡ some end
      → CanClose t

  delivered-CanClose :
      (fuel : ℕ) (after : Afterwards) (t : ClientCall R S) (item : RpcResult (List ℕ)) (r : R)
      (end : R × List (RpcResult (List ℕ)))
      → Ends fuel
      → t.response_task ≡ after_delivery after true r
      → t.is_receiving ≡ true
      → ahead recv show_read codecs debug_frame (after_delivery after true r) (items t) fuel
        ≡ some end
      → CanClose t
  unfolding Ends
  delivered-CanClose fuel read_unless_dropped t item r end again c o e = again t r end c o e
  delivered-CanClose fuel read_on t item r end again c o e = again t r end c o e
  delivered-CanClose fuel stop t item r end again c o e = returned-CanClose t r c o

  delivered_items :
      (t u : ClientCall R S) (item : RpcResult (List ℕ))
      → IsTaken t u
      → u.yielded ++ (u.responses ++ (item ∷ [])) ≡ items t ++ (item ∷ [])
  delivered_items t u item i = rw (i.nothing_left, i.all_yielded) refl

  delivering-CanClose :
      (fuel : ℕ) (after : Afterwards) (t : ClientCall R S) (item : RpcResult (List ℕ)) (r : R)
      (end : R × List (RpcResult (List ℕ)))
      → Ends fuel
      → t.response_task ≡ delivering item after r
      → t.is_receiving ≡ true
      → ahead recv show_read codecs debug_frame (delivering item after r) (items t) fuel ≡ some end
      → CanClose t
  delivering-CanClose fuel after t item r end again c o e =
      let (u, a, i) = take_all t.responses t refl o in
      let v = record u {
        responses = u.responses ++ (item ∷ []);
        response_task = after_delivery after true r;
      } in
      let same = delivered_items t u item i in
      CanClose-before t v (item ∷ [])
        (next a
          (deliver item after r (i.same_task ∙ c) i.is_receiving (rw i.nothing_left (omega arith))))
        same
        (delivered-CanClose fuel after v item r end again refl i.is_receiving (
          ap (λ x. ahead recv show_read codecs debug_frame (after_delivery after true r) x fuel)
            same
          ∙ ahead-after_delivery recv show_read codecs debug_frame after item r (items t) fuel
          ∙ e))

  every_task-CanClose :
      (fuel : ℕ) (x : ResponseTask R) (t : ClientCall R S) (end : R × List (RpcResult (List ℕ)))
      → Ends fuel
      → t.response_task ≡ x
      → t.is_receiving ≡ true
      → ahead recv show_read codecs debug_frame x (items t) fuel ≡ some end
      → CanClose t
  unfolding Ends
  every_task-CanClose fuel (reading r) t end again c o e = again t r end c o e
  every_task-CanClose fuel (delivering item after r) t end again c o e =
      delivering-CanClose fuel after t item r end again c o e
  every_task-CanClose fuel (returned r) t end again c o e = returned-CanClose t r c o
  every_task-CanClose fuel (closed r) t end again c o e = closed-CanClose t r c o

  every_fuel-Ends : (fuel : ℕ) → Ends fuel
  unfolding Ends pump_inbound_responses
  every_fuel-Ends zero t r end c o e = absurd (cc e)
  every_fuel-Ends (suc fuel) t r end c o e =
      let y = read_streaming_frame recv show_read codecs r in
      CanClose-before t _ [] (next here (read_frame r c)) (sym (append-nil (items t))) (
        every_task-CanClose fuel (on_frame debug_frame y) _ end (every_fuel-Ends fuel) refl o
          (ahead-on_frame recv show_read codecs debug_frame y (items t) fuel ∙ e))

  -- As long as the caller keeps its stream and the sequential pump ends from here, the call can be
  -- brought to its end.
  pub ahead-CanClose :
      (fuel : ℕ) (t : ClientCall R S) (end : R × List (RpcResult (List ℕ)))
      → t.is_receiving ≡ true
      → ahead recv show_read codecs debug_frame t.response_task (items t) fuel ≡ some end
      → CanClose t
  ahead-CanClose fuel t end o e =
      every_task-CanClose fuel t.response_task t end (every_fuel-Ends fuel) refl o e
