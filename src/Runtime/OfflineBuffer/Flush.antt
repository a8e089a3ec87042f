-- ===== src/Runtime/OfflineBuffer/Flush.antt =====
-- What a flush leaves in the queue (eyeflow-server/src/runtime/offline-buffer.service.ts, `flush`).
use eyeflow.Common.{
  ℕ, ◌+◌, ◌≡◌, sym, ◌∙◌, ◌↔◌, inl, inr, String, Bool, true, not, List, [], arith, length, any, In,
  In-keep, length-keep, Bool-cases,
}
use eyeflow.Common.Eq.{◌==◌, string_equality}
use eyeflow.Runtime.OfflineBuffer.{
  BufferedEvent, OfflineBuffer, deliver, undelivered, flush_end, flush,
}
use eyeflow.Runtime.OfflineBuffer.Delivery.{Acknowledged, delivered_iff}
use eyeflow.Runtime.OfflineBuffer.Window.{Call, enqueue_all}

not-true_iff : (b : Bool) → (not b ≡ true) ↔ (¬ (b ≡ true))
not-true_iff b = (λ h k. cc, λ h. elim (Bool-cases b) [ inl t ↦ absurd (h t) | inr f ↦ rw f ])

module _ {V : Type 0} where
  In-undelivered :
      (s : OfflineBuffer V) (e : BufferedEvent V)
      → In e (undelivered (deliver s.flush_handlers s.queue []) s.queue)
        ↔ (In e s.queue × (¬ Acknowledged s.flush_handlers s.queue e.id))
  unfolding undelivered
  In-undelivered s e =
      let d = deliver s.flush_handlers s.queue [] in
      let kept = In-keep (λ e. not (any (λ i. i == e.id) d)) e s.queue in
      let found = delivered_iff s.flush_handlers s.queue e.id in
      let flipped = not-true_iff (any (λ i. i == e.id) d) in
      (
        λ m. ((kept.0 m).0, λ a. flipped.0 (kept.0 m).1 (found.1 a)),
        λ m. kept.1 (m.0, flipped.1 (λ t. m.1 (found.0 t))),
      )

  flush_end-queue :
      (stringify : BufferedEvent V → List ℕ) (written : Bool) (batch : List (BufferedEvent V))
      (d : List String) (s : OfflineBuffer V)
      → (flush_end stringify written batch d s).0.queue ≡ undelivered d batch
  unfolding flush_end
  flush_end-queue stringify written batch d s = ground arith

  flush-queue :
      (stringify : BufferedEvent V → List ℕ) (written : Bool) (s : OfflineBuffer V)
      → (flush stringify written s).0.queue
        ≡ undelivered (deliver s.flush_handlers s.queue []) s.queue
  unfolding flush
  flush-queue stringify written s = ground arith

-- With no other call interleaved, an event is in the queue after a flush exactly if it was
-- there before and no handler answered `true` at the position of an event with its id.
pub flush_iff :
    {V : Type 0} (stringify : BufferedEvent V → List ℕ) (written : Bool) (s : OfflineBuffer V)
    (e : BufferedEvent V)
    → In e (flush stringify written s).0.queue
      ↔ (In e s.queue × (¬ Acknowledged s.flush_handlers s.queue e.id))
flush_iff stringify written s e = rw flush-queue (In-undelivered s e)

-- The two numbers that a flush reports add up to the events it found, and the second is the number
-- of those that stay.
pub flush-counts :
    {V : Type 0} (stringify : BufferedEvent V → List ℕ) (written : Bool) (s : OfflineBuffer V)
    → let (s', report) = flush stringify written s in
      (report.delivered + report.remaining ≡ length s.queue) × (report.remaining ≡ length s'.queue)
unfolding flush undelivered
flush-counts stringify written s = ground (
  arith,
  length-keep (λ e. not (any (λ i. i == e.id) (deliver s.flush_handlers s.queue []))) s.queue,
)

-- Events that are enqueued while a flush awaits its handlers are lost: whatever was enqueued in
-- between, the queue is afterwards the undelivered part of the batch taken at the start.
pub flush_end-enqueue_all :
    {V : Type 0} (stringify : BufferedEvent V → List ℕ) (written : Bool) (max_size : ℕ)
    (calls : List (Call V)) (s : OfflineBuffer V)
    → (flush_end stringify written s.queue
        (deliver s.flush_handlers s.queue [])
        (enqueue_all max_size calls s)).0.queue
      ≡ (flush stringify written s).0.queue
flush_end-enqueue_all stringify written max_size calls s =
    flush_end-queue stringify written s.queue _ (enqueue_all max_size calls s)
    ∙ sym (flush-queue stringify written s)
