-- ===== src/Runtime/OfflineBuffer/Delivery.antt =====
-- The ids that the handlers of a flush acknowledge
-- (eyeflow-server/src/runtime/offline-buffer.service.ts, `flush`).
use mathlib.Core.Path.{subst}
use eyeflow.Common.{
  ℕ, zero, suc, ◌≡◌, refl, sym, ap, ◌∙◌, ◌↔◌, ◌⊎◌, inl, inr, String, Bool, true, false, some, List,
  [], ◌∷◌, get_elem?, any, In, In-any, any-In, Option-cases,
}
use eyeflow.Common.Eq.{◌==◌, string_equality}
use eyeflow.Runtime.OfflineBuffer.{BufferedEvent, FlushHandler, acknowledge, deliver}

-- The answer has `true` at the position of an event of the batch that has this id.
pub record Accepts {V : Type 0} (results : List Bool) (batch : List (BufferedEvent V)) (id : String)
    : Type 0 where
  pub position : ℕ
  pub event : BufferedEvent V
  pub accepted : get_elem? results position ≡ some true
  pub placed : get_elem? batch position ≡ some event
  pub same_id : event.id ≡ id

-- Some handler answered `true` for an event of the batch that has this id.
pub record Acknowledged {V : Type 0} (handlers : List (FlushHandler V))
    (batch : List (BufferedEvent V)) (id : String) : Type 0 where
  pub handler : FlushHandler V
  pub registered : In handler handlers
  pub results : List Bool
  pub answered : handler batch ≡ some results
  pub accepts : Accepts results batch id

module _ {V : Type 0} where
  Accepts-later :
      {results : List Bool} {batch : List (BufferedEvent V)} {id : String} (ok : Bool)
      (e : BufferedEvent V)
      → Accepts results batch id
      → Accepts (ok ∷ results) (e ∷ batch) id
  Accepts-later ok e a = record {
    position = suc a.position;
    event = a.event;
    accepted = a.accepted;
    placed = a.placed;
    same_id = a.same_id;
  }

  acknowledge_sound :
      (results : List Bool) (batch : List (BufferedEvent V)) (d : List String) (id : String)
      → In id (acknowledge results batch d)
      → In id d ⊎ Accepts results batch id
  unfolding acknowledge
  acknowledge_sound [] batch d id m = inl m
  acknowledge_sound (ok ∷ results) [] d id m = inl m
  acknowledge_sound (true ∷ results) (e ∷ batch) d id m =
      elim (acknowledge_sound results batch (e.id ∷ d) id m) [
        | inl (inl same) ↦
            inr (record {
              position = 0;
              event = e;
              accepted = refl;
              placed = refl;
              same_id = sym same;
            })
        | inl (inr old) ↦ inl old
        | inr a ↦ inr (Accepts-later true e a)
      ]
  acknowledge_sound (false ∷ results) (e ∷ batch) d id m =
      elim (acknowledge_sound results batch d id m) [
        | inl old ↦ inl old
        | inr a ↦ inr (Accepts-later false e a)
      ]

  acknowledge_keeps :
      (results : List Bool) (batch : List (BufferedEvent V)) (d : List String) (id : String)
      → In id d
      → In id (acknowledge results batch d)
  unfolding acknowledge
  acknowledge_keeps [] batch d id m = m
  acknowledge_keeps (ok ∷ results) [] d id m = m
  acknowledge_keeps (true ∷ results) (e ∷ batch) d id m =
      acknowledge_keeps results batch (e.id ∷ d) id (inr m)
  acknowledge_keeps (false ∷ results) (e ∷ batch) d id m = acknowledge_keeps results batch d id m

  acknowledge_complete :
      (results : List Bool) (batch : List (BufferedEvent V)) (d : List String) (id : String) (n : ℕ)
      (event : BufferedEvent V)
      → get_elem? results n ≡ some true
      → get_elem? batch n ≡ some event
      → event.id ≡ id
      → In id (acknowledge results batch d)
  unfolding acknowledge
  acknowledge_complete [] batch d id n event a p i = cc
  acknowledge_complete (ok ∷ results) [] d id n event a p i = cc
  acknowledge_complete (true ∷ results) (e ∷ batch) d id zero event a p i =
      acknowledge_keeps results batch (e.id ∷ d) id (inl (sym (cc)))
  acknowledge_complete (true ∷ results) (e ∷ batch) d id (suc n) event a p i =
      acknowledge_complete results batch (e.id ∷ d) id n event a p i
  acknowledge_complete (false ∷ results) (e ∷ batch) d id zero event a p i = cc
  acknowledge_complete (false ∷ results) (e ∷ batch) d id (suc n) event a p i =
      acknowledge_complete results batch d id n event a p i

  Acknowledged-later :
      {handlers : List (FlushHandler V)} {batch : List (BufferedEvent V)} {id : String}
      (h : FlushHandler V)
      → Acknowledged handlers batch id
      → Acknowledged (h ∷ handlers) batch id
  Acknowledged-later h a = record {
    handler = a.handler;
    registered = inr a.registered;
    results = a.results;
    answered = a.answered;
    accepts = a.accepts;
  }

  deliver_sound :
      (handlers : List (FlushHandler V)) (batch : List (BufferedEvent V)) (d : List String)
      (id : String)
      → In id (deliver handlers batch d)
      → In id d ⊎ Acknowledged handlers batch id
  unfolding deliver
  deliver_sound [] batch d id m = inl m
  deliver_sound (h ∷ handlers) batch d id m = elim (Option-cases (h batch)) [
    | inl failed ↦ later (deliver_sound handlers batch d id (rw (failed, deliver) at m))
    | inr (results, answered) ↦
        elim (deliver_sound handlers batch (acknowledge results batch d) id
          (rw (answered, deliver) at m)) [
            | inl found ↦ elim (acknowledge_sound results batch d id found) [
              | inl old ↦ inl old
              | inr a ↦ inr (record {
                handler = h;
                registered = inl refl;
                results = results;
                answered = answered;
                accepts = a;
              })
            ]
            | inr a ↦ inr (Acknowledged-later h a)
          ]
  ]
    where
      later :
          In id d ⊎ Acknowledged handlers batch id → In id d ⊎ Acknowledged (h ∷ handlers) batch id
      later (inl old) = inl old
      later (inr a) = inr (Acknowledged-later h a)

  deliver_keeps :
      (handlers : List (FlushHandler V)) (batch : List (BufferedEvent V)) (d : List String)
      (id : String)
      → In id d
      → In id (deliver handlers batch d)
  unfolding deliver
  deliver_keeps [] batch d id m = m
  deliver_keeps (h ∷ handlers) batch d id m = elim (Option-cases (h batch)) [
    | inl failed ↦ rw (failed, deliver) (deliver_keeps handlers batch d id m)
    | inr (results, answered) ↦
        rw (answered, deliver)
          (deliver_keeps handlers batch (acknowledge results batch d) id
            (acknowledge_keeps results batch d id m))
  ]

  deliver_complete :
      (handlers : List (FlushHandler V)) (batch : List (BufferedEvent V)) (d : List String)
      (id : String) (handler : FlushHandler V) (results : List Bool)
      → In handler handlers
      → handler batch ≡ some results
      → Accepts results batch id
      → In id (deliver handlers batch d)
  unfolding deliver
  deliver_complete [] batch d id handler results m answered a = elim m [ ]
  deliver_complete (h ∷ handlers) batch d id handler results (inl same) answered a =
      let here : h batch ≡ some results = ap (λ f. f batch) (sym same) ∙ answered in
      rw (here, deliver)
        (deliver_keeps handlers batch (acknowledge results batch d) id (
          acknowledge_complete results batch d id a.position a.event a.accepted a.placed a.same_id))
  deliver_complete (h ∷ handlers) batch d id handler results (inr m) answered a =
      elim (Option-cases (h batch)) [
        | inl failed ↦
            rw (failed, deliver) (deliver_complete handlers batch d id handler results m answered a)
        | inr (others, here) ↦
            rw (here, deliver)
              (deliver_complete handlers batch (acknowledge others batch d) id handler results m
                answered a)
      ]

  pub delivered_iff :
      (handlers : List (FlushHandler V)) (batch : List (BufferedEvent V)) (id : String)
      → (any (λ i. i == id) (deliver handlers batch []) ≡ true) ↔ Acknowledged handlers batch id
  delivered_iff handlers batch id = (
    λ t.
        let (i, m, e) = In-any (λ i. i == id) (deliver handlers batch []) t in
        found i ((string_equality.test_iff i id).0 e) m,
    λ a.
        any-In (λ i. i == id) id (deliver handlers batch [])
          (deliver_complete handlers batch [] id a.handler a.results a.registered a.answered
            a.accepts)
          ((string_equality.test_iff id id).1 refl),
  )
    where
      found :
          (i : String) → i ≡ id → In i (deliver handlers batch []) → Acknowledged handlers batch id
      found i e m =
          elim (deliver_sound handlers batch [] id
            (subst (λ j. In j (deliver handlers batch [])) e m)) [
              | inl nothing ↦ elim nothing [ ]
              | inr a ↦ a
            ]
