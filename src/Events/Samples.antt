-- ===== src/Events/Samples.antt =====
-- Sample data for the runs of the event components: an engine whose numbers are natural, and
-- conditions on a temperature.
use eyeflow.Common.{ℕ, false, none, some, ltb, leb, nat_eq}
use eyeflow.Common.Json.{num, obj, end, field, Engine}
use eyeflow.Events.Condition.{
  sensor_threshold, ComparisonOperator, gt, number, ConditionFields, ConditionDescriptor,
  descriptor, no_more, TriggerEvent,
}

-- Natural numbers for doubles.
abbrev pub engine : Engine
engine = record {
  Num = ℕ;
  zero_num = 0;
  gt = λ a b. ltb b a;
  ge = λ a b. leb b a;
  lt = ltb;
  le = leb;
  eq = nat_eq;
  parse_float = λ s. 0;
  member = λ v k. none;
  evaluate = λ source output. false;
}

abbrev pub fields : ComparisonOperator → ℕ → ConditionFields ℕ
fields operator limit = record {
  metric_name = "temperature";
  topic = none;
  field = some "temperature";
  operator = some operator;
  value = some (number limit);
  value_min = none;
  value_max = none;
  instruction_id = none;
  semantic_expression = none;
  approval_gate_id = none;
  expected_decision = none;
  signal_id = none;
  timer_ms = none;
  composite_window_ms = none;
}

abbrev pub above : ℕ → ConditionDescriptor ℕ
above limit = descriptor sensor_threshold (fields gt limit) no_more

abbrev pub reading : ℕ → TriggerEvent ℕ
reading n = record { driver_id = "probe"; payload = some (obj (field "temperature" (num n) end)) }
