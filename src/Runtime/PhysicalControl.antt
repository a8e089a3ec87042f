-- ===== src/Runtime/PhysicalControl.antt =====
-- eyeflow-server/src/runtime/physical-control.service.ts. Weekday and time of day in a time zone, and
-- the parts of a text HH:MM as numbers, are the engine's, as is the evaluation of an expression.
-- What the cancellation bus answers, and the two readings of the clock, enter as arguments. The
-- texts of messages are left out.
pub mod Guards
mod Examples
use eyeflow.Common.{
  ℕ, zero, suc, ◌+◌, ◌*◌, ◌-◌, String, Bool, true, false, not, ◌&&◌, Option, none, some, List, [],
  ◌∷◌, or_else, any, if◌then◌else◌, ltb,
}
use eyeflow.Common.Eq.{◌==◌, nat_equality, string_equality}
use eyeflow.Common.JsMap.{insert}
use eyeflow.Runtime.Host.{Host, Registers, get}

-- `days` is empty where the field is absent, which the code treats alike.
pub record TimeWindow : Type 0 where
  pub days : List ℕ
  pub start_time : Option String
  pub end_time : Option String
  pub timezone : Option String

-- `split_numbers t` is `t.split(':').map(Number)`; a part that is no number is `none`.
pub record Calendar : Type 0 where
  pub day_in : String → ℕ → ℕ
  pub minutes_in : String → ℕ → ℕ
  pub split_numbers : String → List (Option ℕ)

-- `h * 60 + m`; `none` is NaN.
abbrev pub minutes_of : List (Option ℕ) → Option ℕ
minutes_of (some h ∷ some m ∷ rest) = some (h * 60 + m)
minutes_of _ = none

-- A comparison with NaN is false.
abbrev pub is_before : ℕ → Option ℕ → Bool
is_before current none = false
is_before current (some bound) = ltb current bound

abbrev pub is_after : ℕ → Option ℕ → Bool
is_after current none = false
is_after current (some bound) = ltb bound current

-- A text that is absent or empty is no bound.
unfoldable pub bound_of : Calendar → Option String → Option ℕ
bound_of calendar none = none
bound_of calendar (some t) = if t == "" then none else minutes_of (calendar.split_numbers t)

abbrev pub is_empty : List ℕ → Bool
is_empty [] = true
is_empty (d ∷ ds) = false

-- Whether the window lets the action pass at `now`; otherwise ForbiddenException is thrown.
unfoldable pub assert_time_window : Calendar → ℕ → TimeWindow → Bool
unfolding bound_of
assert_time_window calendar now tw =
    let tz = or_else tw.timezone "UTC" in
    let current_day = calendar.day_in tz now in
    let current_minutes = calendar.minutes_in tz now in
    if not (is_empty tw.days) && not (any (λ d. d == current_day) tw.days)
    then false
    else if is_before current_minutes (bound_of calendar tw.start_time)
    then false
    else not (is_after current_minutes (bound_of calendar tw.end_time))

pub record Postcondition (V : Type 0) : Type 0 where
  pub register_index : Option ℕ
  pub expected_value : Option V
  pub tolerance : Option V
  pub expression : Option String

pub record PhysicalActionOperands (V : Type 0) : Type 0 where
  pub target : Option String
  pub command : Option String
  pub time_window : Option TimeWindow
  pub cancellation_window_ms : Option ℕ
  pub postcondition : Option (Postcondition V)
  pub requires_human_approval : Bool

pub record PhysicalActionResult : Type 0 where
  pub cancelled : Bool
  pub executed : Bool
  pub postcondition_passed : Option Bool
  pub duration_ms : ℕ
  pub target : String
  pub command : String

-- `evaluate` runs an expression on value, output and registers, `within` compares the distance of
-- two numbers with a tolerance, `same_json` compares two JSON texts; `none` is an exception.
pub record Checks (host : Host) : Type 0 where
  pub evaluate :
      String → host.values.Value → host.values.Value → Registers host → Option host.values.Value
  pub is_number : host.values.Value → Bool
  pub within : host.values.Value → host.values.Value → host.values.Value → Bool
  pub same_json : host.values.Value → host.values.Value → Option Bool

-- How the action ends: `blocked` is the ForbiddenException, `failed` an exception of the executor.
pub data PhysicalOutcome : Type 0 where
  blocked failed : PhysicalOutcome
  reported : PhysicalActionResult → PhysicalOutcome

-- The parts of the service that lie outside it.
pub record PhysicalContext (host : Host) : Type 0 where
  pub calendar : Calendar
  pub checks : Checks host

module _ (host : Host) where
  abbrev Value : Type 0
  Value = host.values.Value

  -- `!!passed` and the `catch` around it.
  abbrev passed : Option Bool → Bool
  passed none = false
  passed (some b) = b

  abbrev truth : Option Value → Bool
  truth none = false
  truth (some v) = host.is_truthy v

  unfoldable pub check_expected : Checks host → Option Value → Option Value → Value → Bool
  check_expected checks none tolerance value = true
  check_expected checks (some expected) none value = passed (checks.same_json value expected)
  check_expected checks (some expected) (some tolerance) value =
      if checks.is_number value
      then checks.within value expected tolerance
      else passed (checks.same_json value expected)

  abbrev expression_of : Option String → Option String
  expression_of none = none
  expression_of (some e) = if e == "" then none else some e

  unfoldable pub verify_postcondition :
      Checks host → Postcondition Value → Registers host → Value → Bool
  unfolding check_expected get
  verify_postcondition checks post registers output =
      let value : Value = elim post.register_index [
        | none ↦ output
        | some r ↦ get host r registers
      ] in
      elim (expression_of post.expression) [
        | some e ↦ truth (checks.evaluate e value output registers)
        | none ↦ check_expected checks post.expected_value post.tolerance value
      ]

  unfoldable pub write_output :
      Option (Postcondition Value) → Value → Registers host → Registers host
  unfolding insert
  write_output none output registers = registers
  write_output (some post) output registers = elim post.register_index [
    | none ↦ registers
    | some r ↦ insert r output registers
  ]

  unfoldable pub postcondition_of :
      Checks host → Option (Postcondition Value) → Registers host → Value → Option Bool
  unfolding verify_postcondition
  postcondition_of checks none registers output = none
  postcondition_of checks (some post) registers output =
      some (verify_postcondition checks post registers output)

  unfoldable pub window_allows : Calendar → ℕ → Option TimeWindow → Bool
  unfolding assert_time_window
  window_allows calendar now none = true
  window_allows calendar now (some tw) = assert_time_window calendar now tw

  abbrev pub waits : Option ℕ → Bool
  waits ms = ltb 0 (or_else ms 0)

  -- The executor changes a world of its own and answers its output, or rejects.
  module _ {World : Type 0} (executor : World → World × Option Value) where
    -- After the cancellation window: execution, output register, postcondition.
    unfoldable pub perform :
        Checks host
        → PhysicalActionOperands Value
        → ℕ
        → ℕ
        → World
        → Registers host
        → (World × Registers host) × PhysicalOutcome
    unfolding write_output postcondition_of
    perform checks ops began ended world registers =
        let (after, answer) = executor world in
        elim answer [
          | none ↦ ((after, registers), failed)
          | some output ↦
              let written = write_output ops.postcondition output registers in
              (
                (after, written),
                reported (record {
                  cancelled = false;
                  executed = true;
                  postcondition_passed = postcondition_of checks ops.postcondition written output;
                  duration_ms = ended - began;
                  target = or_else ops.target "unknown-target";
                  command = or_else ops.command "EXECUTE";
                }),
              )
        ]

    -- `cancelled` is the answer of the cancellation window, read only if the window is open.
    unfoldable pub execute_physical_action :
        PhysicalContext host
        → PhysicalActionOperands Value
        → ℕ
        → ℕ
        → Bool
        → World
        → Registers host
        → (World × Registers host) × PhysicalOutcome
    unfolding perform window_allows
    execute_physical_action outside ops began ended cancelled world registers =
        let done = perform outside.checks ops began ended world registers in
        if not (window_allows outside.calendar began ops.time_window)
        then ((world, registers), blocked)
        else if waits ops.cancellation_window_ms && cancelled
        then (
          (world, registers),
          reported (record {
            cancelled = true;
            executed = false;
            postcondition_passed = none;
            duration_ms = ended - began;
            target = or_else ops.target "unknown-target";
            command = or_else ops.command "EXECUTE";
          }),
        )
        else done
