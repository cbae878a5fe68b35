-- ===== src/Server/Tasks/Sequential.antt =====
-- The interleaved tasks of a streaming call leave what the handler's run on the whole sequence does.
use nerw_rpc.Prelude.{
  ◌≤◌, List, [], ◌∷◌, ◌++◌, append_assoc, ◌≡◌, inl, inr, refl, ap, sym, ◌⊎◌, ◌∙◌, none, some, true,
  length, length-append, arith, if◌then◌else◌,
}
use nerw_rpc.Prelude.Text.{Text}
use nerw_rpc.Result.{Result, ok, err}
use nerw_rpc.Error.{RpcResult}
use nerw_rpc.External.Leb128.{Leb128}
use nerw_rpc.External.Quic.{RecvStream, SendStream, ReadExactError}
use nerw_rpc.Registry.{MethodRegistry}
use nerw_rpc.Context.{RpcContext}
use nerw_rpc.Context.Inbound.{Arrival}
use nerw_rpc.Streaming.{StreamingFrame, Codecs}
use nerw_rpc.Streaming.Write.{write_response_chunk}
use nerw_rpc.Server.Pump.{after_chunk, drain_handler_responses, finalise_streaming}
use nerw_rpc.Server.Streaming.{HandlerRun, StreamingMethodHandler, run_handler}
use nerw_rpc.Server.Tasks.{
  Item, Program, receive, send, update, ended, Drain, draining, stopped, Call, spawned, close_call,
  after_write, drain_item, Step, forward, take_request, end_requests, send_response, send_dropped,
  run_update, drain_response, Reached, here, next, IsOver, drained, cut, channel_capacity,
}

abbrev responding : {W : Type 0} → Item → HandlerRun × W → HandlerRun × W
responding x (run, app) = (record { responses = x ∷ run.responses; outcome = run.outcome }, app)

-- The run of a handler on the whole sequence of its requests, while its responses are taken.
unfoldable pub behave : {W : Type 0} → Program W → List Item → W → HandlerRun × W
behave (receive k) [] app = behave (k none) [] app
behave (receive k) (x ∷ items) app = behave (k (some x)) items app
behave (send x k) items app = responding x (behave (k true) items app)
behave (update f k) items app = behave (k app) items (f app)
behave (ended outcome) items app = (record { responses = []; outcome = outcome }, app)

module _ {S : Type 0} (stream : SendStream S) (l : Leb128) (codecs : Codecs)
    (debug_strings : List Text → Text) where
  -- The sending half at the end, by the responses that are still to be taken.
  abbrev finished : Drain S → List Item → Result Text (RpcResult (Unit {0})) → S
  finished (stopped s) items outcome = (stream.finish s).1
  finished (draining s) items outcome =
      let drained = drain_handler_responses stream l codecs debug_strings items s in
      let closed = finalise_streaming stream l codecs debug_strings outcome drained.1 in
      (stream.finish (if drained.0 then drained.1 else closed)).1

  finished-after_write :
      (items : List Item) (outcome : Result Text (RpcResult (Unit {0})))
      (y : RpcResult (Unit {0}) × S)
      → finished (after_write stream l codecs debug_strings y) items outcome ≡ (
          let drained =
            after_chunk stream l codecs debug_strings
              (drain_handler_responses stream l codecs debug_strings items)
              y in
          let closed = finalise_streaming stream l codecs debug_strings outcome drained.1 in
          (stream.finish (if drained.0 then drained.1 else closed)).1)
  finished-after_write items outcome (ok _, s) = refl
  finished-after_write items outcome (err e, s) = refl

  finished-drain_item :
      (x : Item) (items : List Item) (outcome : Result Text (RpcResult (Unit {0}))) (s : S)
      → finished (drain_item stream l codecs debug_strings x s) items outcome
        ≡ finished (draining s) (x ∷ items) outcome
  unfolding drain_handler_responses
  finished-drain_item (err e) items outcome s = refl
  finished-drain_item (ok chunk) items outcome s =
      finished-after_write items outcome (write_response_chunk stream l chunk s)

  module _ {W : Type 0} where
    -- The rest of the handler's run, if nothing else happened.
    abbrev ahead : Call S W → HandlerRun × W
    ahead t = behave t.handler (t.requests ++ t.to_pump) t.app

    abbrev future : Call S W → S
    future t = finished t.drain (t.responses ++ (ahead t).0.responses) (ahead t).0.outcome

    Step-future : (t u : Call S W) → Step stream l codecs debug_strings t u → future u ≡ future t
    unfolding behave
    Step-future t _ (forward x rest e room) = rw (e, append_assoc t.requests (x ∷ []) rest) refl
    Step-future t _ (take_request k x rest h r) = rw (h, r) refl
    Step-future t _ (end_requests k h r p) = rw (h, r, p) refl
    Step-future t _ (send_response x k s h d room) =
        let later = (behave (k true) (t.requests ++ t.to_pump) t.app).0.responses in
        rw (h, append_assoc t.responses (x ∷ []) later) refl
    Step-future t _ (send_dropped x k s h d) = rw d refl
    Step-future t _ (run_update f k h) = rw h refl
    Step-future t _ (drain_response x rest s d r) = rw (d, r) (finished-drain_item x _ _ s)

    -- While the drain has not stopped, the state of the application is the handler's alone.
    Step-app :
        (t u : Call S W) (s : S)
        → Step stream l codecs debug_strings t u
        → u.drain ≡ draining s
        → ((s' : S) × (t.drain ≡ draining s')) × ((ahead u).1 ≡ (ahead t).1)
    unfolding behave
    Step-app t _ s (forward x rest e room) d =
        ((s, d), rw (e, append_assoc t.requests (x ∷ []) rest) refl)
    Step-app t _ s (take_request k x rest h r) d = ((s, d), rw (h, r) refl)
    Step-app t _ s (end_requests k h r p) d = ((s, d), rw (h, r, p) refl)
    Step-app t _ s (send_response x k s' h d' room) d = ((s, d), rw h refl)
    Step-app t _ s (send_dropped x k s' h d') d = absurd (cc (d, d'))
    Step-app t _ s (run_update f k h) d = ((s, d), rw h refl)
    Step-app t _ s (drain_response x rest s' d' r) d = ((s', d'), refl)

    Reached-future :
        (t u : Call S W) → Reached stream l codecs debug_strings t u → future u ≡ future t
    Reached-future t _ here = refl
    Reached-future t v (next {t = u} before step) = Step-future u v step ∙ Reached-future t u before

    Reached-app :
        (t u : Call S W) (s : S)
        → Reached stream l codecs debug_strings t u
        → u.drain ≡ draining s
        → (ahead u).1 ≡ (ahead t).1
    Reached-app t _ s here d = refl
    Reached-app t v s (next {t = u} before step) d =
        let ((s', d'), e) = Step-app u v s step d in e ∙ Reached-app t u s' before d'

    IsOver-future :
        (t : Call S W) (outcome : Result Text (RpcResult (Unit {0})))
        → IsOver t outcome
        → future t ≡ close_call stream l codecs debug_strings t.drain outcome
    unfolding behave drain_handler_responses
    IsOver-future t _ (drained outcome s h d r) = rw (h, d, r) refl
    IsOver-future t _ (cut outcome s h d) = rw d refl

    -- Neither channel holds more than its capacity.
    Bounded : Call S W → Type 0
    Bounded t = (length t.requests ≤ channel_capacity) × (length t.responses ≤ channel_capacity)

    Step-Bounded : (t u : Call S W) → Step stream l codecs debug_strings t u → Bounded t → Bounded u
    unfolding Bounded
    Step-Bounded t _ (forward x rest e room) (a, b) =
        (omega (arith, length-append t.requests (x ∷ [])), b)
    Step-Bounded t _ (take_request k x rest h r) (a, b) = (omega (arith, ap length r), b)
    Step-Bounded t _ (end_requests k h r p) (a, b) = (a, b)
    Step-Bounded t _ (send_response x k s' h d' room) (a, b) =
        (a, omega (arith, length-append t.responses (x ∷ [])))
    Step-Bounded t _ (send_dropped x k s' h d') (a, b) = (a, b)
    Step-Bounded t _ (run_update f k h) (a, b) = (a, b)
    Step-Bounded t _ (drain_response x rest s' d' r) (a, b) = (a, omega (arith, ap length r))

    Reached-Bounded :
        (t u : Call S W) → Reached stream l codecs debug_strings t u → Bounded t → Bounded u
    Reached-Bounded t _ here b = b
    Reached-Bounded t v (next {t = u} before step) b =
        Step-Bounded u v step (Reached-Bounded t u before b)

module _ {R S W U : Type 0} (recv : RecvStream R) (stream : SendStream S) (l : Leb128)
    (show_read : ReadExactError → Text) (debug_strings : List Text → Text)
    (debug_frame : StreamingFrame → Text) (codecs : Codecs)
    (registry : MethodRegistry U (StreamingMethodHandler W)) (a : Arrival) where
  -- The request pump, the handler and the drain of the responses run as tasks over two channels that
  -- hold at most 16 items, in any order of their steps. When all is over, the sending half is as if
  -- the handler had been given the whole sequence of its requests, and its responses had been written
  -- after its run; and if no terminal error was written and no write failed before its end, so is the
  -- state of the application.
  pub Reached-run_handler :
      (program : RpcContext → Program W) (ctx : RpcContext) (r : R) (items : List Item) (s : S)
      (app : W) (t : Call S W) (outcome : Result Text (RpcResult (Unit {0})))
      → Reached stream l codecs debug_strings (spawned items (program ctx) s app) t
      → IsOver t outcome
      → (out : S × W) × (run_handler recv stream l show_read debug_strings debug_frame codecs
            registry a
            ((λ c. behave (program c)), ctx)
            s
            app
            (some (r, items))
          ≡ some out)
        × (close_call stream l codecs debug_strings t.drain outcome ≡ out.0)
        × (((s' : S) × (t.drain ≡ stopped s')) ⊎ (t.app ≡ out.1))
        × (length t.requests ≤ channel_capacity)
        × (length t.responses ≤ channel_capacity)
  unfolding Bounded behave
  Reached-run_handler program ctx r items s app t outcome reached over =
      let start = spawned items (program ctx) s app in
      let b =
        Reached-Bounded stream l codecs debug_strings start t reached (omega arith, omega arith) in
      (
        _,
        refl,
        sym (IsOver-future stream l codecs debug_strings t outcome over)
            ∙ Reached-future stream l codecs debug_strings start t reached,
        application over,
        b.0,
        b.1,
      )
    where
      application :
          IsOver t outcome
          → ((s' : S) × (t.drain ≡ stopped s')) ⊎ (t.app ≡ (behave (program ctx) items app).1)
      application (drained _ s' h d r) = inr (
          rw h at (
            Reached-app stream l codecs debug_strings (spawned items (program ctx) s app) t s'
              reached d))
      application (cut _ s' h d) = inl (s', d)
