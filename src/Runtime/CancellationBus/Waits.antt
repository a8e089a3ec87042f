-- ===== src/Runtime/CancellationBus/Waits.antt =====
-- What becomes of the promises of `waitForCancellation` in
-- eyeflow-server/src/runtime/cancellation-bus.service.ts.
use eyeflow.Common.{
  ℕ, ◌<◌, ◌≡◌, ◌≢◌, refl, sym, Bool-cases, ◌⊎◌, inl, inr, String, Bool, true, false, some, List, [],
  ◌∷◌, ◌++◌, arith, In, Option-cases, if◌then◌else◌, is_some, nat_eq_iff,
}
use eyeflow.Common.Eq.{◌==◌, nat_equality, string_equality}
use eyeflow.Common.JsMap.{lookup, lookup-insert}
use eyeflow.Runtime.CancellationBus.{
  CancellationRegistration, Closure, CancellationBus, start, settle, clear_timer,
  wait_for_cancellation, expire, unsubscribed, receive, subscribe_failed, release,
  on_module_destroy,
}

-- A wait stands in a list when one of its closures is the wait's own.
unfoldable armed : ℕ → List Closure → Bool
armed w [] = false
armed w (t ∷ ts) = if t.waiter == w then true else armed w ts

-- The states that calls, timers and messages lead to, in any order. A timer runs out only while
-- it is set, and an `unsubscribe` ends only while it is awaited; a listener of a connected bus may
-- get messages at any time.
pub data Reach (channel_of : String → String) (is_cancel : String → Bool) (connected : Bool)
    : CancellationBus → Type 0 where
  begin : Reach channel_of is_cancel connected (start connected)
  wait :
      {s : CancellationBus} (execution_id : String)
      → Reach channel_of is_cancel connected s
      → Reach channel_of is_cancel connected (wait_for_cancellation channel_of execution_id s)
  time :
      {s : CancellationBus} (t : Closure)
      → In t s.timers
      → Reach channel_of is_cancel connected s
      → Reach channel_of is_cancel connected (expire t s)
  left :
      {s : CancellationBus} (t : Closure)
      → In t s.unsubscribing
      → Reach channel_of is_cancel connected s
      → Reach channel_of is_cancel connected (unsubscribed t s)
  message :
      {s : CancellationBus} (text : String) (t : Closure)
      → s.connected ≡ true
      → Reach channel_of is_cancel connected s
      → Reach channel_of is_cancel connected (receive is_cancel text t s)
  failure :
      {s : CancellationBus} (t : Closure)
      → s.connected ≡ true
      → Reach channel_of is_cancel connected s
      → Reach channel_of is_cancel connected (subscribe_failed t s)
  destroy :
      {s : CancellationBus}
      → Reach channel_of is_cancel connected s
      → Reach channel_of is_cancel connected (on_module_destroy s)

abbrev answered : ℕ → List (ℕ × Bool) → Bool
answered w settled = is_some (lookup w settled)

-- The wait has a timer or an `unsubscribe` to come.
abbrev due : ℕ → CancellationBus → Bool
due w s = if armed w s.timers then true else armed w s.unsubscribing

-- A wait that was begun has something to come, or is answered.
record IsAwaited (s : CancellationBus) : Type 0 where
  live : (w : ℕ) → w < s.next → (due w s ≡ true) ⊎ (answered w s.settled ≡ true)

armed-clear_timer :
    (w v : ℕ) (ts : List Closure)
    → armed w (clear_timer v ts) ≡ (if v == w then false else armed w ts)
unfolding armed clear_timer
armed-clear_timer w v [] = ground arith
armed-clear_timer w v (t ∷ ts) =
    let ih = armed-clear_timer w v ts in
    ground (arith, nat_eq_iff t.waiter w, nat_eq_iff t.waiter v, nat_eq_iff v w)

armed-append :
    (w : ℕ) (ts : List Closure) (t : Closure)
    → armed w (ts ++ t ∷ []) ≡ (if t.waiter == w then true else armed w ts)
unfolding armed
armed-append w [] t = refl
armed-append w (u ∷ ts) t = let ih = armed-append w ts t in ground arith

answered-settle :
    (w v : ℕ) (answer : Bool) (settled : List (ℕ × Bool))
    → answered w (settle v answer settled) ≡ (if v == w then true else answered w settled)
unfolding settle
answered-settle w v answer settled = elim (Option-cases (lookup v settled)) [
  | inl fresh ↦ rw (fresh, settle) (ground (arith, lookup-insert v w answer settled))
  | inr (old, e) ↦ rw (e, settle) (ground (arith, nat_eq_iff v w))
]

clear_settle-IsAwaited :
    (s after : CancellationBus) (v : ℕ) (answer : Bool)
    → IsAwaited s
    → after.timers ≡ clear_timer v s.timers
    → after.settled ≡ settle v answer s.settled
    → after.unsubscribing ≡ s.unsubscribing
    → after.next ≡ s.next
    → IsAwaited after
clear_settle-IsAwaited s after v answer h timers settled pending next = record {
  live = λ w small.
      let before = h.live w (rw (sym next) small) in
      let a = armed-clear_timer w v s.timers in
      let b = answered-settle w v answer s.settled in rw (timers, settled, pending) (ground arith);
}

leave-IsAwaited :
    (s after : CancellationBus) (v : ℕ)
    → IsAwaited s
    → after.timers ≡ s.timers
    → after.settled ≡ settle v false s.settled
    → after.unsubscribing ≡ clear_timer v s.unsubscribing
    → after.next ≡ s.next
    → IsAwaited after
leave-IsAwaited s after v h timers settled pending next = record {
  live = λ w small.
      let before = h.live w (rw (sym next) small) in
      let a = armed-clear_timer w v s.unsubscribing in
      let b = answered-settle w v false s.settled in rw (timers, settled, pending) (ground arith);
}

-- A timer of a connected bus that runs out leaves its `unsubscribe` to come.
hand_on-IsAwaited :
    (s after : CancellationBus) (t : Closure)
    → IsAwaited s
    → after.timers ≡ clear_timer t.waiter s.timers
    → after.settled ≡ s.settled
    → after.unsubscribing ≡ s.unsubscribing ++ t ∷ []
    → after.next ≡ s.next
    → IsAwaited after
hand_on-IsAwaited s after t h timers settled pending next = record {
  live = λ w small.
      let before = h.live w (rw (sym next) small) in
      let a = armed-clear_timer w t.waiter s.timers in
      let b = armed-append w s.unsubscribing t in rw (timers, settled, pending) (ground arith);
}

expire-IsAwaited : (t : Closure) (s : CancellationBus) → IsAwaited s → IsAwaited (expire t s)
unfolding expire
expire-IsAwaited t s h = elim (Bool-cases s.connected) [
  | inl online ↦ rw online (hand_on-IsAwaited s _ t h refl refl refl refl)
  | inr offline ↦ rw offline (clear_settle-IsAwaited s _ t.waiter false h refl refl refl refl)
]

wait-IsAwaited :
    (channel_of : String → String) (id : String) (s : CancellationBus)
    → IsAwaited s
    → IsAwaited (wait_for_cancellation channel_of id s)
unfolding wait_for_cancellation
wait-IsAwaited channel_of id s h = record {
  live = λ w small.
      let t : Closure = record { waiter = s.next; execution_id = id } in
      let a = armed-append w s.timers t in
      elim (Bool-cases (s.next == w)) [
        | inl own ↦ inl (ground arith)
        | inr other ↦ let before = h.live w (ground (arith, nat_eq_iff s.next w)) in ground arith
      ];
}

release-IsAwaited :
    (ps : List (String × CancellationRegistration)) (s : CancellationBus)
    → IsAwaited s
    → IsAwaited (release ps s)
unfolding release
release-IsAwaited [] s h = h
release-IsAwaited ((id, reg) ∷ rest) s h =
    release-IsAwaited rest _ (clear_settle-IsAwaited s _ reg.waiter false h refl refl refl refl)

receive-IsAwaited :
    (is_cancel : String → Bool) (text : String) (t : Closure) (s : CancellationBus)
    → IsAwaited s
    → IsAwaited (receive is_cancel text t s)
unfolding receive
receive-IsAwaited is_cancel text t s h = elim (Bool-cases (is_cancel text)) [
  | inl hit ↦ rw hit (clear_settle-IsAwaited s _ t.waiter true h refl refl refl refl)
  | inr miss ↦ rw miss h
]

Reach-IsAwaited :
    {channel_of : String → String} {is_cancel : String → Bool} {connected : Bool}
    (s : CancellationBus)
    → Reach channel_of is_cancel connected s
    → IsAwaited s
unfolding start unsubscribed subscribe_failed on_module_destroy
Reach-IsAwaited s Reach.begin = record { live = λ w small. absurd (omega arith) }
Reach-IsAwaited s (Reach.wait {s = before} id r) =
    wait-IsAwaited _ id before (Reach-IsAwaited before r)
Reach-IsAwaited s (Reach.time {s = before} t m r) =
    expire-IsAwaited t before (Reach-IsAwaited before r)
Reach-IsAwaited s (Reach.left {s = before} t m r) =
    leave-IsAwaited before _ t.waiter (Reach-IsAwaited before r) refl refl refl refl
Reach-IsAwaited s (Reach.message {s = before} text t c r) =
    receive-IsAwaited _ text t before (Reach-IsAwaited before r)
Reach-IsAwaited s (Reach.failure {s = before} t c r) =
    clear_settle-IsAwaited before _ t.waiter false (Reach-IsAwaited before r) refl refl refl refl
Reach-IsAwaited s (Reach.destroy {s = before} r) =
    let ih = release-IsAwaited before.pending before (Reach-IsAwaited before r) in
    record { live = λ w small. ih.live w small }

-- The timers run out, one after the other.
unfoldable pub expire_all : List Closure → CancellationBus → CancellationBus
expire_all [] s = s
expire_all (t ∷ ts) s = expire_all ts (expire t s)

-- The awaited `unsubscribe` calls end, one after the other.
unfoldable pub unsubscribe_all : List Closure → CancellationBus → CancellationBus
unsubscribe_all [] s = s
unsubscribe_all (t ∷ ts) s = unsubscribe_all ts (unsubscribed t s)

-- All timers run out, then all `unsubscribe` calls that are awaited end.
abbrev pub run_out : CancellationBus → CancellationBus
run_out s = let later = expire_all s.timers s in unsubscribe_all later.unsubscribing later

-- When the timers have run out, a wait is answered or awaits its `unsubscribe`.
expire_all-left :
    (w : ℕ) (ts : List Closure) (s : CancellationBus)
    → (armed w ts ≡ true) ⊎ ((armed w s.unsubscribing ≡ true) ⊎ (answered w s.settled ≡ true))
    → (armed w (expire_all ts s).unsubscribing ≡ true)
      ⊎ (answered w (expire_all ts s).settled ≡ true)
unfolding expire_all armed expire
expire_all-left w [] s (inl h) = cc
expire_all-left w [] s (inr h) = h
expire_all-left w (t ∷ ts) s h =
    let now = answered-settle w t.waiter false s.settled in
    let later = armed-append w s.unsubscribing t in
    expire_all-left w ts (expire t s) (elim (Bool-cases s.connected) [
      | inl online ↦ rw online (ground arith)
      | inr offline ↦ rw offline (ground arith)
    ])

unsubscribe_all-answered :
    (w : ℕ) (ts : List Closure) (s : CancellationBus)
    → (armed w ts ≡ true) ⊎ (answered w s.settled ≡ true)
    → answered w (unsubscribe_all ts s).settled ≡ true
unfolding unsubscribe_all armed unsubscribed
unsubscribe_all-answered w [] s (inl h) = cc
unsubscribe_all-answered w [] s (inr h) = h
unsubscribe_all-answered w (t ∷ ts) s h =
    let now = answered-settle w t.waiter false s.settled in
    unsubscribe_all-answered w ts (unsubscribed t s) (ground arith)

-- In every state that calls, timers and messages lead to, each wait that was begun is resolved once
-- the timers that are set have run out and the `unsubscribe` calls that are then awaited have been
-- fulfilled or rejected.
pub Reach-answered :
    (channel_of : String → String) (is_cancel : String → Bool) (connected : Bool)
    (s : CancellationBus)
    → Reach channel_of is_cancel connected s
    → (w : ℕ) → w < s.next
    → answered w (run_out s).settled ≡ true
Reach-answered channel_of is_cancel connected s r w small =
    let live = (Reach-IsAwaited s r).live w small in
    let later = expire_all s.timers s in
    unsubscribe_all-answered w later.unsubscribing later
      (expire_all-left w s.timers s (ground arith))

-- No answer of the list is a cancellation.
unfoldable pub AllRanOut : List (ℕ × Bool) → Type 0
AllRanOut settled = (w : ℕ) → lookup w settled ≢ some true

none-AllRanOut : AllRanOut []
unfolding AllRanOut lookup
none-AllRanOut w e = cc

settle-AllRanOut :
    (v : ℕ) (settled : List (ℕ × Bool)) → AllRanOut settled → AllRanOut (settle v false settled)
unfolding AllRanOut settle
settle-AllRanOut v settled h w e = elim (Option-cases (lookup v settled)) [
  | inl fresh ↦
      let cancelled = rw (fresh, settle) at e in
      let before = h w in let l = lookup-insert v w false settled in ground arith
  | inr (old, at) ↦ h w (rw (at, settle) at e)
]

expire-AllRanOut :
    (t : Closure) (s : CancellationBus) → AllRanOut s.settled → AllRanOut (expire t s).settled
unfolding expire
expire-AllRanOut t s h = elim (Bool-cases s.connected) [
  | inl online ↦ rw online h
  | inr offline ↦ rw offline (settle-AllRanOut t.waiter s.settled h)
]

release-AllRanOut :
    (ps : List (String × CancellationRegistration)) (s : CancellationBus)
    → AllRanOut s.settled
    → AllRanOut (release ps s).settled
unfolding release
release-AllRanOut [] s h = h
release-AllRanOut ((id, reg) ∷ rest) s h =
    release-AllRanOut rest _ (settle-AllRanOut reg.waiter s.settled h)

-- As long as no message is a CANCEL, no wait is answered with a cancellation, whatever is begun,
-- runs out, fails or is torn down in between.
pub Reach-AllRanOut :
    (channel_of : String → String) (is_cancel : String → Bool) (connected : Bool)
    (s : CancellationBus)
    → ((text : String) → is_cancel text ≡ false)
    → Reach channel_of is_cancel connected s
    → AllRanOut s.settled
unfolding start wait_for_cancellation unsubscribed receive subscribe_failed on_module_destroy
Reach-AllRanOut channel_of is_cancel connected s quiet Reach.begin = none-AllRanOut
Reach-AllRanOut channel_of is_cancel connected s quiet (Reach.wait {s = before} id r) =
    Reach-AllRanOut channel_of is_cancel connected before quiet r
Reach-AllRanOut channel_of is_cancel connected s quiet (Reach.time {s = before} t m r) =
    expire-AllRanOut t before (Reach-AllRanOut channel_of is_cancel connected before quiet r)
Reach-AllRanOut channel_of is_cancel connected s quiet (Reach.left {s = before} t m r) =
    settle-AllRanOut t.waiter before.settled
      (Reach-AllRanOut channel_of is_cancel connected before quiet r)
Reach-AllRanOut channel_of is_cancel connected s quiet (Reach.message {s = before} text t c r) =
    rw (quiet text) (Reach-AllRanOut channel_of is_cancel connected before quiet r)
Reach-AllRanOut channel_of is_cancel connected s quiet (Reach.failure {s = before} t c r) =
    settle-AllRanOut t.waiter before.settled
      (Reach-AllRanOut channel_of is_cancel connected before quiet r)
Reach-AllRanOut channel_of is_cancel connected s quiet (Reach.destroy {s = before} r) =
    release-AllRanOut before.pending before
      (Reach-AllRanOut channel_of is_cancel connected before quiet r)
