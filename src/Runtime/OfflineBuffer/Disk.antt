-- ===== src/Runtime/OfflineBuffer/Disk.antt =====
-- The buffer's file: what `loadFromDisk` reads back of what `_persistToDisk` wrote
-- (eyeflow-server/src/runtime/offline-buffer.service.ts).
use eyeflow.Common.{
  ℕ, ◌+◌, ◌≤◌, ◌<◌, leb, drop, length-drop, ◌≡◌, ◌≢◌, refl, ap, ◌∙◌, true, Option, some, List, [],
  ◌∷◌, ◌++◌, map, arith, All, length, keep, length-append,
}
use eyeflow.Common.Eq.{nat_equality}
use eyeflow.Runtime.OfflineBuffer.{
  BufferedEvent, OfflineBuffer, join_lines, split_lines, push_head, is_nonempty, parse_lines,
  enqueue, persist_to_disk, load_text, load_from_disk,
}
use eyeflow.Runtime.OfflineBuffer.Window.{Call, event_of, enqueue_all}

-- A line of the file: not empty, with no line feed inside.
abbrev pub IsLine : List ℕ → Type 0
IsLine l = (l ≢ []) × All (λ c. c ≢ b'\n') l

split_lines-one : (l : List ℕ) → All (λ c. c ≢ b'\n') l → split_lines l ≡ l ∷ []
unfolding split_lines push_head
split_lines-one [] h = refl
split_lines-one (c ∷ l) h = ground (arith, split_lines-one l h.1)

split_lines-append :
    (l rest : List ℕ)
    → All (λ c. c ≢ b'\n') l
    → split_lines (l ++ b'\n' ∷ rest) ≡ l ∷ split_lines rest
unfolding split_lines push_head
split_lines-append [] rest h = refl
split_lines-append (c ∷ l) rest h = ground (arith, split_lines-append l rest h.1)

split_lines-join_lines :
    (l : List ℕ) (ls : List (List ℕ))
    → All IsLine (l ∷ ls)
    → split_lines (join_lines (l ∷ ls)) ≡ l ∷ ls
unfolding join_lines
split_lines-join_lines l [] h = split_lines-one l h.0.1
split_lines-join_lines l (m ∷ ls) h =
    split_lines-append l (join_lines (m ∷ ls)) h.0.1
    ∙ ap (λ r. l ∷ r) (split_lines-join_lines m ls h.1)

keep-is_nonempty : (ls : List (List ℕ)) → All IsLine ls → keep is_nonempty ls ≡ ls
unfolding is_nonempty
keep-is_nonempty [] h = refl
keep-is_nonempty ([] ∷ ls) h = absurd (h.0.0 refl)
keep-is_nonempty ((c ∷ l) ∷ ls) h = ap (λ r. (c ∷ l) ∷ r) (keep-is_nonempty ls h.1)

kept_lines :
    (ls : List (List ℕ)) → All IsLine ls → keep is_nonempty (split_lines (join_lines ls)) ≡ ls
unfolding join_lines split_lines is_nonempty
kept_lines [] h = refl
kept_lines (l ∷ ls) h = rw (split_lines-join_lines l ls h) (keep-is_nonempty (l ∷ ls) h)

-- `stringify` gives one non-empty line for the event, and `parse` reads it back.
abbrev pub IsRead :
    {V : Type 0}
    → (BufferedEvent V → List ℕ)
    → (List ℕ → Option (BufferedEvent V))
    → BufferedEvent V
    → Type 0
IsRead stringify parse e = (parse (stringify e) ≡ some e) × IsLine (stringify e)

module _ {V : Type 0} (stringify : BufferedEvent V → List ℕ)
    (parse : List ℕ → Option (BufferedEvent V)) where
  lines_of :
      (es : List (BufferedEvent V))
      → All (IsRead stringify parse) es
      → All IsLine (map stringify es)
  lines_of [] h = tt
  lines_of (e ∷ es) h = (h.0.1, lines_of es h.1)

  parse_lines-map :
      (es : List (BufferedEvent V))
      → All (IsRead stringify parse) es
      → parse_lines parse (map stringify es) ≡ es
  unfolding parse_lines
  parse_lines-map [] h = refl
  parse_lines-map (e ∷ es) h = rw (h.0.0, parse_lines-map es h.1)

  load_text-join_lines :
      (es : List (BufferedEvent V))
      → All (IsRead stringify parse) es
      → load_text parse true (some (join_lines (map stringify es))) ≡ es
  unfolding load_text
  load_text-join_lines es h =
      rw (kept_lines (map stringify es) (lines_of es h)) (parse_lines-map es h)

-- What `flush` persisted is read back by `loadFromDisk`: over a queue that already holds new events
-- the persisted ones come first, in their order, and the count is their number. Each persisted
-- event has a `stringify` of one non-empty line that `parse` reads back, the write and the
-- read succeed, and the file is the one that was written.
pub load_from_disk-persist_to_disk :
    {V : Type 0} (stringify : BufferedEvent V → List ℕ) (parse : List ℕ → Option (BufferedEvent V))
    (old new : OfflineBuffer V)
    → All (IsRead stringify parse) old.queue
    → new.disk ≡ (persist_to_disk stringify true old).disk
    → let (s, count) = load_from_disk parse true new in
      (s.queue ≡ old.queue ++ new.queue) × (count ≡ length old.queue)
unfolding load_from_disk persist_to_disk
load_from_disk-persist_to_disk stringify parse old new readable same =
    let loaded : load_text parse true new.disk ≡ old.queue =
      ap (load_text parse true) same ∙ load_text-join_lines stringify parse old.queue readable in
    (ap (λ q. q ++ new.queue) loaded, ap length loaded)

length-enqueue_full :
    {V : Type 0} (max_size : ℕ) (c : Call V) (s : OfflineBuffer V)
    → 0 < max_size
    → max_size ≤ length s.queue
    → length (enqueue max_size c.id c.timestamp c.partial s).queue ≡ length s.queue
unfolding enqueue
length-enqueue_full max_size c s positive full =
    let q = s.queue in
    let test : leb max_size (length q) ≡ true = ground arith in
    rw test
      (length-append (drop 1 q) (event_of c ∷ []) ∙ (let one = length-drop 1 q in omega arith))

length-enqueue_all_full :
    {V : Type 0} (max_size : ℕ) (cs : List (Call V)) (s : OfflineBuffer V)
    → 0 < max_size
    → max_size ≤ length s.queue
    → length (enqueue_all max_size cs s).queue ≡ length s.queue
unfolding enqueue_all
length-enqueue_all_full max_size [] s positive full = refl
length-enqueue_all_full max_size (c ∷ cs) s positive full =
    let step = length-enqueue_full max_size c s positive full in
    length-enqueue_all_full max_size cs (enqueue max_size c.id c.timestamp c.partial s) positive
      (omega arith)
    ∙ step

-- When a buffer reads the file that another one has persisted, and the events of both together reach
-- a positive bound of the queue or exceed it, the queue holds all of them, and keeps that length over
-- every sequence of enqueues that follows, however far above the bound it is. Every event persisted
-- must be read back from its own line.
pub enqueue_all-overfull :
    {V : Type 0} (stringify : BufferedEvent V → List ℕ) (parse : List ℕ → Option (BufferedEvent V))
    (old new : OfflineBuffer V) (max_size : ℕ) (cs : List (Call V))
    → All (IsRead stringify parse) old.queue
    → new.disk ≡ (persist_to_disk stringify true old).disk
    → 0 < max_size
    → max_size ≤ length old.queue + length new.queue
    → length (enqueue_all max_size cs (load_from_disk parse true new).0).queue
      ≡ length old.queue + length new.queue
enqueue_all-overfull stringify parse old new max_size cs readable same positive full =
    let loaded = (load_from_disk parse true new).0 in
    let queue = (load_from_disk-persist_to_disk stringify parse old new readable same).0 in
    let all : length loaded.queue ≡ length old.queue + length new.queue =
      ap length queue ∙ length-append old.queue new.queue in
    length-enqueue_all_full max_size cs loaded positive (omega arith) ∙ all
