-- ===== src/Runtime/OfflineBuffer/Window.antt =====
-- The queue of eyeflow-server/src/runtime/offline-buffer.service.ts as a sliding window.
use eyeflow.Common.{
  ℕ, ◌+◌, ◌-◌, ◌≤◌, ◌<◌, ◌≡◌, sym, ap, ◌∙◌, String, List, [], ◌∷◌, ◌++◌, append_assoc, append-nil,
  arith, leb, length, drop, length-append, length-drop, drop-append, drop-drop, drop_zero_of,
  Bool-cases, inl, inr,
}
use eyeflow.Runtime.OfflineBuffer.{BufferedEvent, Partial, OfflineBuffer, enqueue}

-- The last `n` elements.
abbrev pub last_n {ℓ} : {A : Type ℓ} → ℕ → List A → List A
last_n n xs = drop (length xs - n) xs

-- A call of `_enqueue`: the id, the timestamp and the event's own part.
pub record Call (V : Type 0) : Type 0 where
  pub id : String
  pub timestamp : String
  pub partial : Partial V

abbrev pub event_of : {V : Type 0} → Call V → BufferedEvent V
event_of c = record {
  id = c.id;
  kind = c.partial.kind;
  timestamp = c.timestamp;
  workflow_id = c.partial.workflow_id;
  payload = c.partial.payload;
  retries = 0;
}

abbrev pub events_of : {V : Type 0} → List (Call V) → List (BufferedEvent V)
events_of [] = []
events_of (c ∷ cs) = event_of c ∷ events_of cs

unfoldable pub enqueue_all : {V : Type 0} → ℕ → List (Call V) → OfflineBuffer V → OfflineBuffer V
enqueue_all max_size [] s = s
enqueue_all max_size (c ∷ cs) s =
    enqueue_all max_size cs (enqueue max_size c.id c.timestamp c.partial s)

last_n-append {ℓ} :
    {A : Type ℓ} (n : ℕ) (xs ys : List A) → last_n n (last_n n xs ++ ys) ≡ last_n n (xs ++ ys)
last_n-append n xs ys =
    let k : ℕ = length xs - n in
    let few : length (drop k xs ++ ys) ≡ length xs - k + length ys =
      length-append (drop k xs) ys ∙ ap (λ i. i + length ys) (length-drop k xs) in
    let all : length (xs ++ ys) ≡ length xs + length ys = length-append xs ys in
    ap (drop (length (drop k xs ++ ys) - n)) (drop-append k xs ys (omega arith))
    ∙ drop-drop (length (drop k xs ++ ys) - n) k (length (xs ++ ys) - n) (xs ++ ys) (omega arith)

module _ {V : Type 0} (max_size : ℕ) (positive : 0 < max_size) where
  enqueue-last_n :
      (c : Call V) (s : OfflineBuffer V)
      → length s.queue ≤ max_size
      → (enqueue max_size c.id c.timestamp c.partial s).queue
        ≡ last_n max_size (s.queue ++ event_of c ∷ [])
  unfolding enqueue
  enqueue-last_n c s h =
      let q = s.queue in
      let e : BufferedEvent V = event_of c in
      let long : length (q ++ e ∷ []) ≡ length q + 1 = length-append q (e ∷ []) in
      elim (Bool-cases (leb max_size (length q))) [
        | inl full ↦ rw full (
            drop-append 1 q (e ∷ []) (ground arith)
            ∙ ap (λ i. drop i (q ++ e ∷ [])) {x = 1} (ground arith))
        | inr room ↦ rw room (sym (drop_zero_of _ (q ++ e ∷ []) (ground arith)))
      ]

  enqueue_all_of_last_n :
      (cs : List (Call V)) (s : OfflineBuffer V)
      → length s.queue ≤ max_size
      → (enqueue_all max_size cs s).queue ≡ last_n max_size (s.queue ++ events_of cs)
  unfolding enqueue_all
  enqueue_all_of_last_n [] s h =
      sym (ap (last_n max_size) (append-nil s.queue) ∙ drop_zero_of _ s.queue (omega arith))
  enqueue_all_of_last_n (c ∷ cs) s h =
      let s' = enqueue max_size c.id c.timestamp c.partial s in
      let step = enqueue-last_n c s h in
      let bounded : length s'.queue ≤ max_size = rw step (rw length-drop (omega arith)) in
      enqueue_all_of_last_n cs s' bounded
      ∙ ap (λ q. last_n max_size (q ++ events_of cs)) step
      ∙ last_n-append max_size (s.queue ++ event_of c ∷ []) (events_of cs)
      ∙ ap (last_n max_size) (append_assoc s.queue (event_of c ∷ []) (events_of cs))

-- From a queue within a positive bound, any sequence of enqueues leaves the last `max_size` of
-- the old events followed by the new ones, in their order, the oldest being dropped first.
pub enqueue_all-last_n :
    {V : Type 0} (max_size : ℕ) (cs : List (Call V)) (s : OfflineBuffer V)
    → 0 < max_size
    → length s.queue ≤ max_size
    → (enqueue_all max_size cs s).queue ≡ last_n max_size (s.queue ++ events_of cs)
enqueue_all-last_n max_size cs s positive h = enqueue_all_of_last_n max_size positive cs s h

-- The queue never passes its positive bound.
pub enqueue-bounded :
    {V : Type 0} (max_size : ℕ) (c : Call V) (s : OfflineBuffer V)
    → 0 < max_size
    → length s.queue ≤ max_size
    → length (enqueue max_size c.id c.timestamp c.partial s).queue ≤ max_size
enqueue-bounded max_size c s positive h =
    rw (enqueue-last_n max_size positive c s h) (rw length-drop (omega arith))
