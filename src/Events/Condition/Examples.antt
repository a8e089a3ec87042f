-- ===== src/Events/Condition/Examples.antt =====
-- Small conditions (eyeflow-server/src/events/event-state-machine.service.ts, `conditionMatches`).
use eyeflow.Common.{ℕ, ◌≡◌, ◌↔◌, refl, true, false, []}
use eyeflow.Events.Condition.{
  sensor_threshold, composite_all_of, composite_any_of, gt, lte, ConditionDescriptor, descriptor,
  no_more, also, simple_matches, condition_matches,
}
use eyeflow.Events.Samples.{engine, fields, above, reading}
use eyeflow.Events.Condition.Meaning.{Holds, condition_matches_iff}

abbrev at_most : ℕ → ConditionDescriptor ℕ
at_most limit = descriptor sensor_threshold (fields lte limit) no_more

abbrev between_20_and_30 : ConditionDescriptor ℕ
between_20_and_30 = descriptor composite_all_of (fields gt 0) (
    also (above 20) (
      also (descriptor composite_any_of (fields gt 0) (also (above 99) (also (at_most 30) no_more)))
        no_more))

matches_25 : condition_matches engine between_20_and_30 (reading 25) [] ≡ true
unfolding condition_matches simple_matches
matches_25 = refl

refuses_35 : condition_matches engine between_20_and_30 (reading 35) [] ≡ false
unfolding condition_matches simple_matches
refuses_35 = refl

means_25 :
    (condition_matches engine between_20_and_30 (reading 25) [] ≡ true)
    ↔ Holds engine (reading 25) [] between_20_and_30
means_25 = condition_matches_iff engine (reading 25) [] between_20_and_30
