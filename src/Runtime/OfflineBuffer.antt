-- ===== src/Runtime/OfflineBuffer.antt =====
-- eyeflow-server/src/runtime/offline-buffer.service.ts. `max_queue_size` is the constant read from
-- the environment; the clock and the random suffix enter as the arguments `id` and `timestamp`.
-- `JSON` enters as the arguments `stringify` and `parse`, and a call of the file system that can
-- throw as a Boolean that says whether it succeeds.
pub mod Window
pub mod Delivery
pub mod Flush
pub mod Disk
pub mod Connectivity
mod Examples
use eyeflow.Common.{
  ℕ, ◌+◌, ◌-◌, String, Bool, true, false, not, ◌&&◌, Option, none, some, List, [], ◌∷◌, ◌++◌, map,
  if◌then◌else◌, leb, length, drop, keep, any,
}
use eyeflow.Common.Eq.{◌==◌, nat_equality, string_equality}
use eyeflow.Common.JsMap.{insert}

pub data BufferedEventKind : Type 0 where
  audit execution_result trigger_fire : BufferedEventKind

pub record BufferedEvent (V : Type 0) : Type 0 where
  pub id : String
  pub kind : BufferedEventKind
  pub timestamp : String
  pub workflow_id : Option String
  pub payload : List (String × V)
  pub retries : ℕ

-- A handler answers one flag for each event of the batch; `none` is a rejected promise.
abbrev pub FlushHandler : Type 0 → Type 0
FlushHandler V = List (BufferedEvent V) → Option (List Bool)

-- `retry_timer` says whether the interval is armed; `disk` is the content of BUFFER_FILE.
pub record OfflineBuffer (V : Type 0) : Type 0 where
  pub queue : List (BufferedEvent V)
  pub flush_handlers : List (FlushHandler V)
  pub connected : Bool
  pub retry_timer : Bool
  pub disk : Option (List ℕ)

-- What `_enqueue` is given.
pub record Partial (V : Type 0) : Type 0 where
  pub kind : BufferedEventKind
  pub workflow_id : Option String
  pub payload : List (String × V)

-- The outcome that `flush` reports.
pub record FlushReport : Type 0 where
  pub delivered : ℕ
  pub remaining : ℕ

-- `lines.join('\n')` and `text.split('\n')`
pub join_lines : List (List ℕ) → List ℕ
join_lines [] = []
join_lines (l ∷ []) = l
join_lines (l ∷ m ∷ ls) = l ++ b'\n' ∷ join_lines (m ∷ ls)

push_head : ℕ → List (List ℕ) → List (List ℕ)
push_head c [] = (c ∷ []) ∷ []
push_head c (l ∷ ls) = (c ∷ l) ∷ ls

pub split_lines : List ℕ → List (List ℕ)
unfolding push_head
split_lines [] = [] ∷ []
split_lines (c ∷ cs) =
    let rest = split_lines cs in if c == b'\n' then [] ∷ rest else push_head c rest

is_nonempty : List ℕ → Bool
is_nonempty [] = false
is_nonempty (c ∷ cs) = true

module _ {V : Type 0} where
  -- `{ ...base, ...extra }`
  spread : List (String × V) → List (String × V) → List (String × V)
  unfolding insert
  spread base [] = base
  spread base ((k, v) ∷ extra) = spread (insert k v base) extra

  pub enqueue : ℕ → String → String → Partial V → OfflineBuffer V → OfflineBuffer V
  enqueue max_queue_size id timestamp partial s =
      let event : BufferedEvent V = record {
        id = id;
        kind = partial.kind;
        timestamp = timestamp;
        workflow_id = partial.workflow_id;
        payload = partial.payload;
        retries = 0;
      } in
      let kept = if leb max_queue_size (length s.queue) then drop 1 s.queue else s.queue in
      record s { queue = kept ++ event ∷ [] }

  -- The three public methods; `text` makes a JSON string.
  pub enqueue_audit_event :
      (String → V)
      → ℕ
      → String
      → String
      → String
      → String
      → List (String × V)
      → OfflineBuffer V
      → OfflineBuffer V
  unfolding enqueue spread
  enqueue_audit_event text max_queue_size id timestamp workflow event_type payload =
      enqueue max_queue_size id timestamp (record {
        kind = audit;
        workflow_id = some workflow;
        payload = spread (("eventType", text event_type) ∷ []) payload;
      })

  enqueue_execution_result :
      (String → V)
      → ℕ
      → String
      → String
      → String
      → String
      → List (String × V)
      → OfflineBuffer V
      → OfflineBuffer V
  unfolding enqueue spread
  enqueue_execution_result text max_queue_size id timestamp workflow instruction result =
      enqueue max_queue_size id timestamp (record {
        kind = execution_result;
        workflow_id = some workflow;
        payload = spread (("instructionId", text instruction) ∷ []) result;
      })

  enqueue_trigger_fire :
      (String → V)
      → ℕ
      → String
      → String
      → String
      → String
      → List (String × V)
      → OfflineBuffer V
      → OfflineBuffer V
  unfolding enqueue spread
  enqueue_trigger_fire text max_queue_size id timestamp workflow trigger_type fields =
      enqueue max_queue_size id timestamp (record {
        kind = trigger_fire;
        workflow_id = some workflow;
        payload = spread (("triggerType", text trigger_type) ∷ []) fields;
      })

  pub register_flush_handler : FlushHandler V → OfflineBuffer V → OfflineBuffer V
  register_flush_handler handler s = record s { flush_handlers = s.flush_handlers ++ handler ∷ [] }

  pub persist_to_disk : (BufferedEvent V → List ℕ) → Bool → OfflineBuffer V → OfflineBuffer V
  unfolding join_lines
  persist_to_disk stringify written s =
      if written then record s { disk = some (join_lines (map stringify s.queue)) } else s

  -- `loaded`: a line that does not parse is skipped.
  pub parse_lines : (List ℕ → Option (BufferedEvent V)) → List (List ℕ) → List (BufferedEvent V)
  parse_lines parse [] = []
  parse_lines parse (l ∷ ls) = elim (parse l) [
    | none ↦ parse_lines parse ls
    | some e ↦ e ∷ parse_lines parse ls
  ]

  pub load_text :
      (List ℕ → Option (BufferedEvent V)) → Bool → Option (List ℕ) → List (BufferedEvent V)
  unfolding split_lines is_nonempty parse_lines
  load_text parse readable none = []
  load_text parse readable (some text) =
      if readable then parse_lines parse (keep is_nonempty (split_lines text)) else []

  -- The new state and the number of events loaded.
  pub load_from_disk :
      (List ℕ → Option (BufferedEvent V)) → Bool → OfflineBuffer V → OfflineBuffer V × ℕ
  unfolding load_text
  load_from_disk parse readable s =
      let loaded = load_text parse readable s.disk in
      (record s { queue = loaded ++ s.queue }, length loaded)

  -- `results.forEach((ok, i) => { if (ok) deliveredSet.add(batch[i].id) })`: an `ok` beyond the
  -- batch throws, which ends this handler's loop.
  pub acknowledge : List Bool → List (BufferedEvent V) → List String → List String
  acknowledge [] batch delivered = delivered
  acknowledge (ok ∷ results) [] delivered = delivered
  acknowledge (true ∷ results) (e ∷ batch) delivered = acknowledge results batch (e.id ∷ delivered)
  acknowledge (false ∷ results) (e ∷ batch) delivered = acknowledge results batch delivered

  -- The loop over the handlers: the ids that `deliveredSet` holds at its end.
  pub deliver : List (FlushHandler V) → List (BufferedEvent V) → List String → List String
  unfolding acknowledge
  deliver [] batch delivered = delivered
  deliver (handler ∷ handlers) batch delivered = elim (handler batch) [
    | none ↦ deliver handlers batch delivered
    | some results ↦ deliver handlers batch (acknowledge results batch delivered)
  ]

  pub undelivered : List String → List (BufferedEvent V) → List (BufferedEvent V)
  undelivered delivered = keep (λ e. not (any (λ i. i == e.id) delivered))

  -- What `flush` does after its last `await`, in the state that it then finds.
  pub flush_end :
      (BufferedEvent V → List ℕ)
      → Bool
      → List (BufferedEvent V)
      → List String
      → OfflineBuffer V
      → OfflineBuffer V × FlushReport
  unfolding undelivered persist_to_disk
  flush_end stringify written batch delivered s =
      let remaining = undelivered delivered batch in
      (
        persist_to_disk stringify written (record s { queue = remaining }),
        record { delivered = length batch - length remaining; remaining = length remaining },
      )

  -- `flush` when nothing else runs while it awaits its handlers.
  pub flush : (BufferedEvent V → List ℕ) → Bool → OfflineBuffer V → OfflineBuffer V × FlushReport
  unfolding flush_end deliver
  flush stringify written s = elim s.queue [
    | [] ↦ (s, record { delivered = 0; remaining = 0 })
    | e ∷ es ↦ flush_end stringify written s.queue (deliver s.flush_handlers s.queue []) s
  ]

  -- The new state, and whether a flush is started.
  pub notify_connected : Bool → OfflineBuffer V → OfflineBuffer V × Bool
  notify_connected is_connected s =
      let s' = record s { connected = is_connected } in
      if not is_connected && s.connected
      then (record s' { retry_timer = true }, false)
      else if is_connected && not s.connected
      then (record s' { retry_timer = false }, true)
      else (s', false)

  -- The body of the retry interval.
  pub retry_tick : OfflineBuffer V → OfflineBuffer V
  retry_tick s = if s.connected then record s { retry_timer = false } else s

  pub is_buffering : OfflineBuffer V → Bool
  is_buffering s = not s.connected

  on_module_destroy : (BufferedEvent V → List ℕ) → Bool → OfflineBuffer V → OfflineBuffer V
  unfolding persist_to_disk
  on_module_destroy stringify written s =
      let stopped = record s { retry_timer = false } in
      if leb 1 (length s.queue) then persist_to_disk stringify written stopped else stopped

  -- The fields' initial values, over what the file holds.
  pub start : Option (List ℕ) → OfflineBuffer V
  start disk = record {
    queue = [];
    flush_handlers = [];
    connected = true;
    retry_timer = false;
    disk = disk;
  }
