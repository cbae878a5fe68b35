-- ===== src/Tests/Tasks.antt =====
-- The tasks of a streaming call at concrete inputs.
use mathlib.Core.WellFounded.{Acc}
use nerw_rpc.Prelude.{ℕ, suc, true, ◌≤◌, [], ◌∷◌, ◌≡◌, ◌⊎◌, refl, arith, Option, none, some}
use nerw_rpc.Result.{Result, ok}
use nerw_rpc.Prelude.Text.{Text}
use nerw_rpc.Error.{RpcResult}
use nerw_rpc.Registry.{MethodRegistry}
use nerw_rpc.Context.{RpcContext}
use nerw_rpc.Context.Inbound.{build_inbound_context}
use nerw_rpc.External.Leb128.{groups}
use nerw_rpc.Server.Streaming.{StreamingMethodHandler, run_handler}
use nerw_rpc.Server.Tasks.{
  Item, Program, receive, ended, draining, stopped, Call, spawned, close_call, forward,
  take_request, send_response, drain_response, run_update, Reached, here, next, IsOver, drained,
}
use nerw_rpc.Server.Tasks.Sequential.{behave, Reached-run_handler}
use nerw_rpc.Server.Tasks.Ending.{Later, call-ends}
use nerw_rpc.Tests.Instances.Leb128.{leb128}
use nerw_rpc.Tests.Instances.Quic.{recv, send, fresh_sent, Sent}
use nerw_rpc.Tests.Instances.Codecs.{codecs}
use nerw_rpc.Tests.Instances.Shown.{arrival, show_read, debug, debug_frame}

-- The handler counts the call, answers its first request by the request, and ends.
abbrev answer : Option Item → Program ℕ
answer none = ended (ok (ok tt))
answer (some x) = Program.send x (λ there. ended (ok (ok tt)))

abbrev echo_first : RpcContext → Program ℕ
echo_first ctx = Program.update suc (λ calls. receive answer)

abbrev request : Item
request = ok (5 ∷ [])

abbrev start : Call Sent ℕ
start = spawned (request ∷ request ∷ []) (echo_first (build_inbound_context arrival)) fresh_sent 4

-- One chunk was written, and the second request is still in its channel.
abbrev over : Call Sent ℕ
over = record {
  to_pump = [];
  requests = request ∷ [];
  handler = ended (ok (ok tt));
  responses = [];
  drain = draining (record { bytes = 0x21 ∷ 1 ∷ 5 ∷ []; live = true });
  app = 5;
}

over-Reached : Reached send leb128 codecs debug start over
unfolding nerw_rpc.Streaming.Write.write_length_prefixed groups
over-Reached =
    next
      (next
        (next
          (next
            (next (next here (forward request (request ∷ []) refl (omega arith)))
              (run_update suc (λ calls. receive answer) refl))
            (take_request answer request [] refl refl))
          (forward request [] refl (omega arith)))
        (send_response request (λ there. ended (ok (ok tt))) fresh_sent refl refl (omega arith)))
      (drain_response request [] fresh_sent refl refl)

over-IsOver : IsOver over (ok (ok tt))
over-IsOver = drained (ok (ok tt)) _ refl refl refl

abbrev empty_registry : MethodRegistry ℕ (StreamingMethodHandler ℕ)
empty_registry = record { handlers = [] }

Reached-run_handler_example :
    (out : Sent × ℕ) × (run_handler recv send leb128 show_read debug debug_frame codecs
        empty_registry arrival
        ((λ c. behave (echo_first c)), build_inbound_context arrival)
        fresh_sent
        4
        (some ([], request ∷ request ∷ []))
      ≡ some out)
    × (close_call send leb128 codecs debug over.drain (ok (ok tt)) ≡ out.0)
    × (((s : Sent) × (over.drain ≡ stopped s)) ⊎ (over.app ≡ out.1))
    × (1 ≤ 16)
    × (0 ≤ 16)
Reached-run_handler_example =
    Reached-run_handler recv send leb128 show_read debug debug_frame codecs empty_registry arrival
      echo_first (build_inbound_context arrival) [] (request ∷ request ∷ []) fresh_sent 4 over
      (ok (ok tt)) over-Reached over-IsOver

call-ends_example :
    Acc (Later send leb128 codecs debug) start
    × (((u : Call Sent ℕ) × Later send leb128 codecs debug u start)
        ⊎ ((o : Result Text (RpcResult (Unit {0}))) × IsOver start o))
call-ends_example = call-ends send leb128 codecs debug start
