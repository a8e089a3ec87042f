-- ===== src/Runtime/CancellationBus/Examples.antt =====
-- A connected bus with two waits on one execution
-- (eyeflow-server/src/runtime/cancellation-bus.service.ts).
use eyeflow.Common.{◌<◌, ◌≡◌, refl, inl, String, Bool, true, some, [], ◌∷◌, is_some, arith}
use eyeflow.Common.Eq.{◌==◌, nat_equality, string_equality}
use eyeflow.Common.JsMap.{lookup}
use eyeflow.Runtime.CancellationBus.{
  Closure, CancellationBus, start, wait_for_cancellation, expire, unsubscribed, receive,
  get_pending_executions, emergency_stop,
}
use eyeflow.Runtime.CancellationBus.Waits.{Reach, run_out, Reach-answered}

abbrev channel_of : String → String
channel_of id = id

abbrev is_cancel : String → Bool
is_cancel text = text == "CANCEL"

abbrev two : CancellationBus
two =
    wait_for_cancellation channel_of "vanne" (wait_for_cancellation channel_of "vanne" (start true))

-- The second wait of the same execution takes the place of the first.
two_pending : get_pending_executions two ≡ "vanne" ∷ []
unfolding get_pending_executions wait_for_cancellation start
two_pending = refl

abbrev first : Closure
first = record { waiter = 0; execution_id = "vanne" }

-- When the first one's timer runs out, the second is lost from the map.
abbrev one_out : CancellationBus
one_out = expire first two

one_out_stop : emergency_stop (λ c t. c == t) "vanne" one_out ≡ []
unfolding emergency_stop expire wait_for_cancellation start
one_out_stop = refl

one_out-Reach : Reach channel_of is_cancel true one_out
unfolding wait_for_cancellation start
one_out-Reach = Reach.time first (inl refl) (Reach.wait "vanne" (Reach.wait "vanne" Reach.begin))

one_out_small : 1 < one_out.next
unfolding expire wait_for_cancellation start
one_out_small = omega arith

one_out_answered : is_some (lookup 1 (run_out one_out).settled) ≡ true
one_out_answered = Reach-answered channel_of is_cancel true one_out one_out-Reach 1 one_out_small

cancelled :
    lookup 1
      (receive is_cancel "CANCEL" (record { waiter = 1; execution_id = "vanne" }) two).settled
    ≡ some true
unfolding lookup receive wait_for_cancellation start
cancelled = refl

-- A CANCEL that comes while the timer's callback awaits `unsubscribe` is what answers the wait.
cancelled_late :
    lookup 0 (unsubscribed first (receive is_cancel "CANCEL" first one_out)).settled ≡ some true
unfolding lookup unsubscribed receive expire wait_for_cancellation start
cancelled_late = refl
