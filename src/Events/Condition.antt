-- ===== src/Events/Condition.antt =====
-- When a condition of a transition matches an event: `conditionMatches`, `extractValue` and
-- `compare` of eyeflow-server/src/events/event-state-machine.service.ts, over the descriptors of
-- eyeflow-server/src/compiler/interfaces/event-state-machine.interface.ts.
pub mod Meaning
mod Examples
use Prim.Native.Char.{Char, code}
use Prim.Native.String
use eyeflow.Common.{
  ℕ, String, Bool, true, false, not, ◌&&◌, ◌||◌, Option, none, some, List, [], ◌∷◌, if◌then◌else◌,
  nat_eq, or_else,
}
use eyeflow.Common.Eq.{◌==◌, string_equality}
use eyeflow.Common.JsMap.{lookup}
use eyeflow.Common.Json.{Json, null, num, text, Engine, get_member}

pub data ConditionType : Type 0 where
  sensor_threshold mqtt_value kafka_event field_bus_value kpi_value : ConditionType
  llm_output ml_score crm_query_result api_response : ConditionType
  window_timer_elapsed human_approval remote_signal : ConditionType
  composite_all_of composite_any_of : ConditionType

pub data ComparisonOperator : Type 0 where
  gt gte lt lte eq neq exists between : ComparisonOperator

pub data Threshold (N : Type 0) : Type 0 where
  number : N → Threshold N
  string : String → Threshold N

-- The fields of a `ConditionDescriptor` other than `type` and `compositeConditions`. No code of the
-- service reads `timer_ms` or `composite_window_ms`.
pub record ConditionFields (N : Type 0) : Type 0 where
  pub metric_name : String
  pub topic : Option String
  pub field : Option String
  pub operator : Option ComparisonOperator
  pub value : Option (Threshold N)
  pub value_min : Option N
  pub value_max : Option N
  pub instruction_id : Option String
  pub semantic_expression : Option String
  pub approval_gate_id : Option String
  pub expected_decision : Option String
  pub signal_id : Option String
  pub timer_ms : Option ℕ
  pub composite_window_ms : Option ℕ

mutual
  pub data ConditionDescriptor (N : Type 0) : Type 0 where
    descriptor : ConditionType → ConditionFields N → Conditions N → ConditionDescriptor N

  -- `compositeConditions`; an absent array is the empty one.
  pub data Conditions (N : Type 0) : Type 0 where
    no_more : Conditions N
    also : ConditionDescriptor N → Conditions N → Conditions N

abbrev pub fields_of : {N : Type 0} → ConditionDescriptor N → ConditionFields N
fields_of (descriptor ty f cs) = f

-- The parts of a trigger event that the machine reads; `payload` is absent in the event that the
-- expiry of a window makes up.
pub record TriggerEvent (N : Type 0) : Type 0 where
  pub driver_id : String
  pub payload : Option (Json N)

-- A text that is present and not empty.
abbrev pub given : Option String → Option String
given none = none
given (some s) = if s == "" then none else some s

push_front : Char → List String → List String
push_front c [] = String.◌∷◌ c "" ∷ []
push_front c (part ∷ parts) = String.◌∷◌ c part ∷ parts

-- `path.split('.')`
unfoldable pub split_dots : String → List String
unfolding push_front
split_dots String.[] = "" ∷ []
split_dots (String.◌∷◌ c s) =
    let rest = split_dots s in if nat_eq (code c) b'.' then "" ∷ rest else push_front c rest

module _ (js : Engine) where
  -- The loop of `extractValue` over the parts of a path; it stops at null and undefined.
  unfoldable pub walk : Option (Json js.Num) → List String → Option (Json js.Num)
  unfolding get_member
  walk current [] = current
  walk none (part ∷ parts) = none
  walk (some null) (part ∷ parts) = none
  walk (some v) (part ∷ parts) = walk (get_member js v part) parts

  scalar : Option (Json js.Num) → Option (Json js.Num)
  scalar (some (num n)) = some (num n)
  scalar (some (text s)) = some (text s)
  scalar _ = none

  -- With no field the payload itself, or its `value`, if that is a number or a text.
  unfielded : Json js.Num → Option (Json js.Num)
  unfolding scalar get_member
  unfielded (num n) = some (num n)
  unfielded (text s) = some (text s)
  unfielded v = scalar (get_member js v "value")

  unfoldable pub extract_value : ConditionFields js.Num → TriggerEvent js.Num → Option (Json js.Num)
  unfolding walk unfielded split_dots
  extract_value c event = elim event.payload [
    | none ↦ none
    | some null ↦ none
    | some v ↦ elim (given c.field) [
      | some path ↦ walk (some v) (split_dots path)
      | none ↦ unfielded v
    ]
  ]

  -- The field `k` of the payload, `event.payload?.k`.
  unfoldable pub payload_member : TriggerEvent js.Num → String → Option (Json js.Num)
  unfolding get_member
  payload_member event k = elim event.payload [
    | none ↦ none
    | some null ↦ none
    | some v ↦ get_member js v k
  ]

  -- `v === s` for a text `s`
  abbrev is_text : Option (Json js.Num) → String → Bool
  is_text (some (text t)) s = t == s
  is_text _ s = false

  -- `event.payload?.signalId === condition.signalId`: true also if both are undefined.
  is_signal : Option (Json js.Num) → Option String → Bool
  is_signal none none = true
  is_signal v (some s) = is_text v s
  is_signal v none = false

  threshold_of : Option (Threshold js.Num) → js.Num
  threshold_of none = js.parse_float none
  threshold_of (some (number n)) = n
  threshold_of (some (string s)) = js.parse_float (some s)

  in_range : js.Num → Option js.Num → Option js.Num → Bool
  in_range actual (some lo) (some hi) = js.ge actual lo && js.le actual hi
  in_range actual _ _ = false

  unfoldable pub compare : js.Num → ComparisonOperator → ConditionFields js.Num → Bool
  unfolding threshold_of in_range
  compare actual gt c = js.gt actual (threshold_of c.value)
  compare actual gte c = js.ge actual (threshold_of c.value)
  compare actual lt c = js.lt actual (threshold_of c.value)
  compare actual lte c = js.le actual (threshold_of c.value)
  compare actual eq c = js.eq actual (threshold_of c.value)
  compare actual neq c = not (js.eq actual (threshold_of c.value))
  compare actual exists c = true
  compare actual between c = in_range actual c.value_min c.value_max

  -- The value must be a number; the operator defaults to `>`.
  unfoldable pub threshold_matches : ConditionFields js.Num → Option (Json js.Num) → Bool
  unfolding compare
  threshold_matches c (some (num n)) = compare n (or_else c.operator gt) c
  threshold_matches c _ = false

  kafka_matches : ConditionFields js.Num → TriggerEvent js.Num → Bool
  unfolding threshold_matches extract_value payload_member
  kafka_matches c event =
      event.driver_id == "kafka"
      && (elim (given c.topic) [
        | none ↦ true
        | some topic ↦ is_text (payload_member event "topic") topic
      ]
          && threshold_matches c (extract_value c event))

  signal_matches : ConditionFields js.Num → TriggerEvent js.Num → Bool
  unfolding is_signal payload_member
  signal_matches c event =
      event.driver_id == "remote_signal" && is_signal (payload_member event "signalId") c.signal_id

  -- A compiled expression over the output that a step stored.
  output_matches : ConditionFields js.Num → List (String × Json js.Num) → Bool
  unfolding lookup
  output_matches c step_outputs = elim (given c.instruction_id) [
    | none ↦ false
    | some instruction ↦ elim (given c.semantic_expression) [
      | none ↦ false
      | some expression ↦ elim (lookup instruction step_outputs) [
        | none ↦ false
        | some output ↦ js.evaluate expression output
      ]
    ]
  ]

  -- A gate or a decision that the condition leaves out matches any.
  wanted : Option String → Option (Json js.Num) → Bool
  wanted expected v = elim (given expected) [ none ↦ true | some s ↦ is_text v s ]

  approval_matches : ConditionFields js.Num → TriggerEvent js.Num → Bool
  unfolding wanted payload_member
  approval_matches c event =
      event.driver_id == "human_approval"
      && (wanted c.approval_gate_id (payload_member event "gateId")
          && wanted c.expected_decision (payload_member event "decision"))

  -- A condition with no children: every case of the `switch` but the two composites.
  unfoldable pub simple_matches :
      ConditionType
      → ConditionFields js.Num
      → TriggerEvent js.Num
      → List (String × Json js.Num)
      → Bool
  unfolding threshold_matches extract_value kafka_matches signal_matches output_matches
      approval_matches
  simple_matches sensor_threshold c e out = threshold_matches c (extract_value c e)
  simple_matches mqtt_value c e out = threshold_matches c (extract_value c e)
  simple_matches field_bus_value c e out = threshold_matches c (extract_value c e)
  simple_matches kpi_value c e out = threshold_matches c (extract_value c e)
  simple_matches kafka_event c e out = kafka_matches c e
  simple_matches remote_signal c e out = signal_matches c e
  simple_matches window_timer_elapsed c e out = false
  simple_matches llm_output c e out = output_matches c out
  simple_matches ml_score c e out = output_matches c out
  simple_matches crm_query_result c e out = output_matches c out
  simple_matches api_response c e out = output_matches c out
  simple_matches human_approval c e out = approval_matches c e
  simple_matches composite_all_of c e out = false
  simple_matches composite_any_of c e out = false

  abbrev is_given : Conditions js.Num → Bool
  is_given no_more = false
  is_given (also c cs) = true

  unfoldable mutual
    pub condition_matches :
        ConditionDescriptor js.Num → TriggerEvent js.Num → List (String × Json js.Num) → Bool
    condition_matches (descriptor composite_all_of f cs) e out =
        is_given cs && every_matches cs e out
    condition_matches (descriptor composite_any_of f cs) e out = some_matches cs e out
    condition_matches (descriptor ty f cs) e out = simple_matches ty f e out

    pub every_matches : Conditions js.Num → TriggerEvent js.Num → List (String × Json js.Num) → Bool
    every_matches no_more e out = true
    every_matches (also c cs) e out = condition_matches c e out && every_matches cs e out

    pub some_matches : Conditions js.Num → TriggerEvent js.Num → List (String × Json js.Num) → Bool
    some_matches no_more e out = false
    some_matches (also c cs) e out = condition_matches c e out || some_matches cs e out
