-- ===== src/Runtime/OfflineBuffer/Connectivity.antt =====
-- The buffer's states over any interleaving of its calls, with flushes in flight
-- (eyeflow-server/src/runtime/offline-buffer.service.ts).
use eyeflow.Common.{
  ℕ, ◌≤◌, ◌<◌, ◌≡◌, refl, String, Bool, not, List, [], ◌∷◌, arith, length, All, In, All-In,
  length-keep, any, Option,
}
use eyeflow.Common.Eq.{◌==◌, string_equality}
use eyeflow.Runtime.OfflineBuffer.{
  BufferedEvent, FlushHandler, OfflineBuffer, enqueue, register_flush_handler, undelivered,
  flush_end, notify_connected, retry_tick, start,
}
use eyeflow.Runtime.OfflineBuffer.Window.{Call, enqueue-bounded}

-- The service and the batches whose handlers have not all answered yet.
pub record System (V : Type 0) : Type 0 where
  pub buffer : OfflineBuffer V
  pub in_flight : List (List (BufferedEvent V))

-- One synchronous piece of the program. `started` is `void this.flush()` after a reconnection or a
-- call of `flush`; `finished` is the end of any flush in flight, with what was acknowledged.
pub data Step {V : Type 0} (stringify : BufferedEvent V → List ℕ) (max_size : ℕ) (s : System V)
    : System V → Type 0 where
  enqueued :
      (c : Call V)
      → Step stringify max_size s
          (record s { buffer = enqueue max_size c.id c.timestamp c.partial s.buffer })
  registered :
      (h : FlushHandler V)
      → Step stringify max_size s (record s { buffer = register_flush_handler h s.buffer })
  notified :
      (b : Bool) → Step stringify max_size s (record s { buffer = (notify_connected b s.buffer).0 })
  started : Step stringify max_size s (record s { in_flight = s.buffer.queue ∷ s.in_flight })
  finished :
      (written : Bool) (batch : List (BufferedEvent V)) (delivered : List String)
      → In batch s.in_flight
      → Step stringify max_size s
          (record s { buffer = (flush_end stringify written batch delivered s.buffer).0 })
  ticked : Step stringify max_size s (record s { buffer = retry_tick s.buffer })

pub data Reach {V : Type 0} (stringify : BufferedEvent V → List ℕ) (max_size : ℕ) (s : System V)
    : System V → Type 0 where
  here : Reach stringify max_size s s
  next :
      {t u : System V}
      → Reach stringify max_size s t
      → Step stringify max_size t u
      → Reach stringify max_size s u

-- The retry interval is armed exactly while the transport is down, and no queue or batch passes
-- the bound.
pub record IsValid {V : Type 0} (max_size : ℕ) (s : System V) : Type 0 where
  pub armed : s.buffer.retry_timer ≡ not s.buffer.connected
  pub bounded : length s.buffer.queue ≤ max_size
  pub batches : All (λ b. length b ≤ max_size) s.in_flight

module _ {V : Type 0} (stringify : BufferedEvent V → List ℕ) (max_size : ℕ) where
  start-IsValid :
      (disk : Option (List ℕ))
      → IsValid {V = V} max_size (record { buffer = start disk; in_flight = [] })
  unfolding start
  start-IsValid disk = record { armed = refl; bounded = omega arith; batches = tt }

  notify_connected-armed :
      (b : Bool) (s : OfflineBuffer V)
      → s.retry_timer ≡ not s.connected
      → (notify_connected b s).0.retry_timer ≡ not (notify_connected b s).0.connected
  unfolding notify_connected
  notify_connected-armed b s h = ground arith

  notify_connected-queue :
      (b : Bool) (s : OfflineBuffer V) → (notify_connected b s).0.queue ≡ s.queue
  unfolding notify_connected
  notify_connected-queue b s = ground arith

  flush_end-bounded :
      (written : Bool) (batch : List (BufferedEvent V)) (d : List String) (s : OfflineBuffer V)
      → length (flush_end stringify written batch d s).0.queue ≤ length batch
  unfolding flush_end undelivered
  flush_end-bounded written batch d s =
      ground (arith, length-keep (λ e. not (any (λ i. i == e.id) d)) batch)

  Step-IsValid :
      {s t : System V}
      → 0 < max_size
      → Step stringify max_size s t
      → IsValid max_size s
      → IsValid max_size t
  unfolding enqueue register_flush_handler retry_tick flush_end
  Step-IsValid {s} positive (enqueued c) v = record {
    armed = v.armed;
    bounded = enqueue-bounded max_size c s.buffer positive v.bounded;
    batches = v.batches;
  }
  Step-IsValid positive (registered h) v = record {
    armed = v.armed;
    bounded = v.bounded;
    batches = v.batches;
  }
  Step-IsValid {s} positive (notified b) v = record {
    armed = notify_connected-armed b s.buffer v.armed;
    bounded = rw (notify_connected-queue b s.buffer) v.bounded;
    batches = v.batches;
  }
  Step-IsValid positive started v = record {
    armed = v.armed;
    bounded = v.bounded;
    batches = (v.bounded, v.batches);
  }
  Step-IsValid {s} positive (finished written batch d m) v = record {
    armed = ground arith;
    bounded = omega (
      arith,
      flush_end-bounded written batch d s.buffer,
      All-In (λ b. length b ≤ max_size) batch s.in_flight v.batches m,
    );
    batches = v.batches;
  }
  Step-IsValid positive ticked v = record {
    armed = ground arith;
    bounded = ground arith;
    batches = v.batches;
  }

-- From a fresh service, over every interleaving of enqueues, registrations, changes of connectivity,
-- retry ticks and flushes in flight: the retry interval is armed exactly while the transport is
-- down, and no queue or batch passes the positive bound.
pub Reach-IsValid :
    {V : Type 0} (stringify : BufferedEvent V → List ℕ) (max_size : ℕ) (disk : Option (List ℕ))
    {s : System V}
    → 0 < max_size
    → Reach stringify max_size (record { buffer = start disk; in_flight = [] }) s
    → IsValid max_size s
Reach-IsValid stringify max_size disk positive here = start-IsValid stringify max_size disk
Reach-IsValid stringify max_size disk positive (next r step) =
    Step-IsValid stringify max_size positive step (Reach-IsValid stringify max_size disk positive r)
