-- ===== src/Runtime/CancellationBus.antt =====
-- eyeflow-server/src/runtime/cancellation-bus.service.ts. Every call of `waitForCancellation` has a
-- number; its promise, its timer and its listener go by that number. The redis client is not
-- modelled: a message reaches a listener by a step of its own. `is_cancel` is the test
-- `message.trim().toUpperCase() === 'CANCEL'` and `includes` that of the texts.
pub mod Waits
mod Examples
use eyeflow.Common.{
  ℕ, suc, String, Bool, true, false, not, Option, none, some, List, [], ◌∷◌, ◌++◌, keep, length,
  if◌then◌else◌, map,
}
use eyeflow.Common.Eq.{◌==◌, nat_equality, string_equality}
use eyeflow.Common.JsMap.{lookup, insert, delete}

-- `waiter` is the promise whose `resolve` the registration holds, and the timer set with it.
pub record CancellationRegistration : Type 0 where
  pub execution_id : String
  pub channel : String
  pub waiter : ℕ

-- A timer or listener that is live, with the execution id of its closure.
pub record Closure : Type 0 where
  pub waiter : ℕ
  pub execution_id : String

-- `settled` holds the promises that are resolved, with their answers; `unsubscribing` the waits
-- whose timer has run out and that await `subscriber.unsubscribe`.
pub record CancellationBus : Type 0 where
  pub connected : Bool
  pub pending : List (String × CancellationRegistration)
  pub timers : List Closure
  pub unsubscribing : List Closure
  pub settled : List (ℕ × Bool)
  pub next : ℕ

unfoldable pub start : Bool → CancellationBus
start connected = record {
  connected = connected;
  pending = [];
  timers = [];
  unsubscribing = [];
  settled = [];
  next = 0;
}

-- Only the first answer to a promise counts.
unfoldable pub settle : ℕ → Bool → List (ℕ × Bool) → List (ℕ × Bool)
unfolding lookup insert
settle w answer settled = elim (lookup w settled) [
  | none ↦ insert w answer settled
  | some old ↦ settled
]

unfoldable pub clear_timer : ℕ → List Closure → List Closure
clear_timer w = keep (λ t. not (t.waiter == w))

-- A bus that is not connected waits on a timer alone.
unfoldable pub wait_for_cancellation :
    (String → String) → String → CancellationBus → CancellationBus
unfolding insert
wait_for_cancellation channel_of execution_id s =
    let closure : Closure = record { waiter = s.next; execution_id = execution_id } in
    let registration : CancellationRegistration = record {
      execution_id = execution_id;
      channel = channel_of execution_id;
      waiter = s.next;
    } in
    record s {
      timers = s.timers ++ closure ∷ [];
      pending = if s.connected then insert execution_id registration s.pending else s.pending;
      next = suc s.next;
    }

-- The timer of a wait runs out. The callback of a connected bus awaits `unsubscribe` before it
-- resolves the promise; the plain timer of the fallback resolves it at once.
unfoldable pub expire : Closure → CancellationBus → CancellationBus
unfolding clear_timer settle delete
expire t s =
    if s.connected
    then record s {
      timers = clear_timer t.waiter s.timers;
      pending = delete t.execution_id s.pending;
      unsubscribing = s.unsubscribing ++ t ∷ [];
    }
    else record s {
      timers = clear_timer t.waiter s.timers;
      settled = settle t.waiter false s.settled;
    }

-- The promise of `unsubscribe` is fulfilled or rejected: the callback goes on either way.
unfoldable pub unsubscribed : Closure → CancellationBus → CancellationBus
unfolding clear_timer settle
unsubscribed t s = record s {
  unsubscribing = clear_timer t.waiter s.unsubscribing;
  settled = settle t.waiter false s.settled;
}

-- The listener of a wait gets a message.
unfoldable pub receive : (String → Bool) → String → Closure → CancellationBus → CancellationBus
unfolding clear_timer settle delete
receive is_cancel message t s =
    if is_cancel message
    then record s {
      timers = clear_timer t.waiter s.timers;
      pending = delete t.execution_id s.pending;
      settled = settle t.waiter true s.settled;
    }
    else s

-- `subscribe` is rejected.
unfoldable pub subscribe_failed : Closure → CancellationBus → CancellationBus
unfolding clear_timer settle delete
subscribe_failed t s = record s {
  timers = clear_timer t.waiter s.timers;
  pending = delete t.execution_id s.pending;
  settled = settle t.waiter false s.settled;
}

-- Whether a message is published, and on which channel.
unfoldable pub cancel_execution : (String → String) → String → CancellationBus → Option String
cancel_execution channel_of execution_id s =
    if s.connected then some (channel_of execution_id) else none

channels_with :
    (String → String → Bool) → String → List (String × CancellationRegistration) → List String
channels_with includes target [] = []
channels_with includes target ((id, reg) ∷ rest) =
    let more = channels_with includes target rest in
    if includes reg.channel target then reg.channel ∷ more else more

-- The channels that are told to cancel; the method answers their number.
unfoldable pub emergency_stop : (String → String → Bool) → String → CancellationBus → List String
unfolding channels_with
emergency_stop includes target s =
    if s.connected then channels_with includes target s.pending else []

unfoldable pub get_pending_executions : CancellationBus → List String
get_pending_executions s = map (λ e. e.0) s.pending

unfoldable pub release :
    List (String × CancellationRegistration) → CancellationBus → CancellationBus
unfolding clear_timer settle
release [] s = s
release ((id, reg) ∷ rest) s = release rest (record s {
  timers = clear_timer reg.waiter s.timers;
  settled = settle reg.waiter false s.settled;
})

unfoldable pub on_module_destroy : CancellationBus → CancellationBus
unfolding release
on_module_destroy s = record (release s.pending s) { pending = [] }
