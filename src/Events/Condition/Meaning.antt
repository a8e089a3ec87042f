-- ===== src/Events/Condition/Meaning.antt =====
-- What a composite condition means: derivations, and that `conditionMatches` decides them
-- (eyeflow-server/src/events/event-state-machine.service.ts).
use eyeflow.Common.{◌≡◌, ◌↔◌, refl, String, true, List, arith, Bool-cases, inl, inr}
use eyeflow.Common.Json.{Json, Engine}
use eyeflow.Events.Condition.{
  ConditionType, composite_all_of, composite_any_of, ConditionFields, ConditionDescriptor,
  descriptor, Conditions, no_more, also, TriggerEvent, simple_matches, condition_matches,
  every_matches, some_matches,
}

module _ (js : Engine) (e : TriggerEvent js.Num) (out : List (String × Json js.Num)) where
  mutual
    -- `all_of` needs at least one child and a derivation for each, `any_of` one for some child.
    pub data Holds : ConditionDescriptor js.Num → Type 0 where
      simple :
          {ty : ConditionType} {f : ConditionFields js.Num} {cs : Conditions js.Num}
          → simple_matches js ty f e out ≡ true
          → Holds (descriptor ty f cs)
      all_of :
          {f : ConditionFields js.Num} {c : ConditionDescriptor js.Num} {cs : Conditions js.Num}
          → Holds c
          → Each cs
          → Holds (descriptor composite_all_of f (also c cs))
      any_of :
          {f : ConditionFields js.Num} {cs : Conditions js.Num}
          → Some cs
          → Holds (descriptor composite_any_of f cs)

    pub data Each : Conditions js.Num → Type 0 where
      done : Each no_more
      more :
          {c : ConditionDescriptor js.Num} {cs : Conditions js.Num}
          → Holds c
          → Each cs
          → Each (also c cs)

    pub data Some : Conditions js.Num → Type 0 where
      first : {c : ConditionDescriptor js.Num} {cs : Conditions js.Num} → Holds c → Some (also c cs)
      later : {c : ConditionDescriptor js.Num} {cs : Conditions js.Num} → Some cs → Some (also c cs)

  simple_case :
      (ty : ConditionType) (f : ConditionFields js.Num) (cs : Conditions js.Num)
      → simple_matches js ty f e out ≡ true
      → condition_matches js (descriptor ty f cs) e out ≡ true
  unfolding condition_matches simple_matches
  simple_case composite_all_of f cs h = cc
  simple_case composite_any_of f cs h = cc
  simple_case ty f cs h = h

  mutual
    unfolding condition_matches every_matches some_matches simple_matches

    complete : {c : ConditionDescriptor js.Num} → Holds c → condition_matches js c e out ≡ true
    complete (simple {ty} {f} {cs} h) = simple_case ty f cs h
    complete (all_of h hs) = ground (arith, complete h, complete-Each hs)
    complete (any_of hs) = complete-Some hs

    complete-Each : {cs : Conditions js.Num} → Each cs → every_matches js cs e out ≡ true
    complete-Each done = refl
    complete-Each (more h hs) = ground (arith, complete h, complete-Each hs)

    complete-Some : {cs : Conditions js.Num} → Some cs → some_matches js cs e out ≡ true
    complete-Some (first h) = ground (arith, complete h)
    complete-Some (later hs) = ground (arith, complete-Some hs)

  mutual
    unfolding condition_matches every_matches some_matches

    sound : (c : ConditionDescriptor js.Num) → condition_matches js c e out ≡ true → Holds c
    sound (descriptor composite_all_of f no_more) h = cc
    sound (descriptor composite_all_of f (also c cs)) h =
        all_of (sound c (ground arith)) (sound-Each cs (ground arith))
    sound (descriptor composite_any_of f cs) h = any_of (sound-Some cs h)
    sound (descriptor ty f cs) h = simple h

    sound-Each : (cs : Conditions js.Num) → every_matches js cs e out ≡ true → Each cs
    sound-Each no_more h = done
    sound-Each (also c cs) h = more (sound c (ground arith)) (sound-Each cs (ground arith))

    sound-Some : (cs : Conditions js.Num) → some_matches js cs e out ≡ true → Some cs
    sound-Some no_more h = cc
    sound-Some (also c cs) h = elim (Bool-cases (condition_matches js c e out)) [
      | inl here ↦ first (sound c here)
      | inr not_here ↦ later (sound-Some cs (rw not_here at h))
    ]

-- `conditionMatches` answers true exactly where the condition has a derivation: a composite
-- `all_of` of at least one child from one for every child, an `any_of` from one for some child, at
-- any depth, and every other condition from its own test. All of them read the one event that has
-- come; the window of a composite condition plays no part.
pub condition_matches_iff :
    (js : Engine) (e : TriggerEvent js.Num) (out : List (String × Json js.Num))
    (c : ConditionDescriptor js.Num)
    → (condition_matches js c e out ≡ true) ↔ Holds js e out c
condition_matches_iff js e out c = (sound js e out c, complete js e out)
