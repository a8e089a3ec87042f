-- ===== src/Runtime/OfflineBuffer/Examples.antt =====
-- Small runs of the offline buffer (eyeflow-server/src/runtime/offline-buffer.service.ts).
use eyeflow.Common.{
  ℕ, zero, suc, ◌+◌, ◌-◌, ◌≡◌, ◌≢◌, ◌↔◌, refl, String, true, false, Option, none, some, List, [],
  ◌∷◌, ◌++◌, arith, In, length,
}
use eyeflow.Runtime.OfflineBuffer.{
  BufferedEventKind, execution_result, trigger_fire, enqueue_audit_event, enqueue_execution_result,
  enqueue_trigger_fire, is_buffering, on_module_destroy, audit, BufferedEvent, FlushHandler,
  OfflineBuffer, enqueue, flush, flush_end, deliver, persist_to_disk, load_from_disk, start,
}
use eyeflow.Runtime.OfflineBuffer.Window.{Call, enqueue_all, enqueue_all-last_n}
use eyeflow.Runtime.OfflineBuffer.Delivery.{Acknowledged}
use eyeflow.Runtime.OfflineBuffer.Flush.{flush_iff, flush_end-enqueue_all}
use eyeflow.Runtime.OfflineBuffer.Disk.{load_from_disk-persist_to_disk, enqueue_all-overfull}
use eyeflow.Runtime.OfflineBuffer.Connectivity.{System, Step, Reach, IsValid, Reach-IsValid}

abbrev event : String → ℕ → BufferedEvent ℕ
event id retries = record {
  id = id;
  kind = audit;
  timestamp = "now";
  workflow_id = none;
  payload = [];
  retries = retries;
}

abbrev call : String → Call ℕ
call id = record {
  id = id;
  timestamp = "now";
  partial = record { kind = audit; workflow_id = none; payload = [] };
}

-- The first event is taken, the second refused.
abbrev half : FlushHandler ℕ
half batch = some (true ∷ false ∷ [])

abbrev two : OfflineBuffer ℕ
two = record {
  queue = event "a" 0 ∷ event "b" 1 ∷ [];
  flush_handlers = half ∷ [];
  connected = false;
  retry_timer = true;
  disk = none;
}

abbrev stringify_digit : BufferedEvent ℕ → List ℕ
stringify_digit e = (e.retries + 48) ∷ []

abbrev parse_digit : List ℕ → Option (BufferedEvent ℕ)
parse_digit [] = none
parse_digit (c ∷ cs) = some (event (elim (c - 48) [ zero ↦ "a" | suc n ↦ "b" ]) (c - 48))

two_calls :
    (enqueue_all 3 (call "c" ∷ call "d" ∷ []) two).queue
    ≡ event "b" 1 ∷ event "c" 0 ∷ event "d" 0 ∷ []
two_calls = enqueue_all-last_n 3 (call "c" ∷ call "d" ∷ []) two (omega arith) (omega arith)

flush_keeps_b :
    In (event "b" 1) (flush stringify_digit true two).0.queue
    ↔ (In (event "b" 1) two.queue × (¬ Acknowledged two.flush_handlers two.queue "b"))
flush_keeps_b = flush_iff stringify_digit true two (event "b" 1)

lost_event :
    (flush_end stringify_digit true two.queue
      (deliver two.flush_handlers two.queue [])
      (enqueue_all 10 (call "c" ∷ []) two)).0.queue
    ≡ (flush stringify_digit true two).0.queue
lost_event = flush_end-enqueue_all stringify_digit true 10 (call "c" ∷ []) two

lost_event_queue : (flush stringify_digit true two).0.queue ≡ event "b" 1 ∷ []
unfolding flush
lost_event_queue = refl

abbrev restarted : OfflineBuffer ℕ
restarted = record two {
  queue = event "new" 0 ∷ [];
  disk = (persist_to_disk stringify_digit true two).disk;
}

not_newline : (n : ℕ) → n + 48 ≢ b'\n'
not_newline n e = omega arith

reloaded :
    ((load_from_disk parse_digit true restarted).0.queue ≡ two.queue ++ restarted.queue)
    × ((load_from_disk parse_digit true restarted).1 ≡ 2)
reloaded =
    load_from_disk-persist_to_disk stringify_digit parse_digit two restarted
      ((refl, (λ e. cc, (not_newline 0, tt))), ((refl, (λ e. cc, (not_newline 1, tt))), tt)) refl

-- Three events under a bound of two.
overfull_two :
    length
      (enqueue_all 2 (call "c" ∷ call "d" ∷ []) (load_from_disk parse_digit true restarted).0).queue
    ≡ 3
overfull_two =
    enqueue_all-overfull stringify_digit parse_digit two restarted 2 (call "c" ∷ call "d" ∷ [])
      ((refl, (λ e. cc, (not_newline 0, tt))), ((refl, (λ e. cc, (not_newline 1, tt))), tt)) refl
      (omega arith) (omega arith)

abbrev fresh : System ℕ
fresh = record { buffer = start none; in_flight = [] }

abbrev one_call : System ℕ
one_call = record fresh { buffer = enqueue 2 "c" "now" (call "c").partial fresh.buffer }

one_call-Reach : Reach stringify_digit 2 fresh one_call
one_call-Reach = Reach.next Reach.here (Step.enqueued (call "c"))

one_call-IsValid : IsValid 2 one_call
one_call-IsValid = Reach-IsValid stringify_digit 2 none (omega arith) one_call-Reach

abbrev text_one : String → ℕ
text_one s = 1

abbrev from_client : BufferedEventKind → List (String × ℕ) → BufferedEvent ℕ
from_client kind payload = record (event "c" 0) {
  kind = kind;
  workflow_id = some "w";
  payload = payload;
}

-- The caller's own `eventType` wins.
audited :
    (enqueue_audit_event text_one 5 "c" "now" "w" "START"
      (("eventType", 2) ∷ ("by", 3) ∷ [])
      (start none)).queue
    ≡ from_client audit (("eventType", 2) ∷ ("by", 3) ∷ []) ∷ []
unfolding enqueue_audit_event start
audited = refl

executed :
    (enqueue_execution_result text_one 5 "c" "now" "w" "7" [] (start none)).queue
    ≡ from_client execution_result (("instructionId", 1) ∷ []) ∷ []
unfolding enqueue_execution_result start
executed = refl

triggered :
    (enqueue_trigger_fire text_one 5 "c" "now" "w" "CRON" [] (start none)).queue
    ≡ from_client trigger_fire (("triggerType", 1) ∷ []) ∷ []
unfolding enqueue_trigger_fire start
triggered = refl

offline : is_buffering two ≡ true
unfolding is_buffering
offline = refl

destroyed :
    let s' = on_module_destroy stringify_digit true two in
    (s'.retry_timer ≡ false) × (s'.disk ≡ (persist_to_disk stringify_digit true two).disk)
unfolding on_module_destroy
destroyed = (refl, refl)
