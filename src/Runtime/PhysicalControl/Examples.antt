-- ===== src/Runtime/PhysicalControl/Examples.antt =====
-- A valve under a time window and a cancellation window
-- (eyeflow-server/src/runtime/physical-control.service.ts).
use eyeflow.Common.{ℕ, ◌≡◌, ◌↔◌, refl, ◌⊎◌, true, false, Option, none, some, [], ◌∷◌, In, suc}
use eyeflow.Runtime.Host.{Registers}
use eyeflow.Runtime.Samples.{host, calendar, outside}
use eyeflow.Runtime.PhysicalControl.{
  TimeWindow, assert_time_window, PhysicalActionOperands, execute_physical_action,
}
use eyeflow.Runtime.PhysicalControl.Guards.{IsFrom, IsUntil, assert_time_window_iff}

abbrev evenings : TimeWindow
evenings = record { days = 1 ∷ 2 ∷ []; start_time = some "22:00"; end_time = none; timezone = none }

evenings_meaning : (assert_time_window calendar 0 evenings ≡ true) ↔ (
    ((evenings.days ≡ []) ⊎ In 1 evenings.days)
    × IsFrom calendar (some "22:00") 30
    × IsUntil calendar none 30)
evenings_meaning = assert_time_window_iff calendar 0 evenings

abbrev close : PhysicalActionOperands ℕ
close = record {
  target = some "vanne";
  command = some "CLOSE";
  time_window = none;
  cancellation_window_ms = some 30000;
  postcondition = none;
  requires_human_approval = false;
}

abbrev executor : ℕ → ℕ × Option ℕ
executor world = (suc world, some 7)

abbrev no_registers : Registers host
no_registers = []

cancelled_close :
    (execute_physical_action host executor outside close 0 100 true 5 no_registers).0
    ≡ (5, no_registers)
unfolding execute_physical_action
cancelled_close = refl

executed_close :
    (execute_physical_action host executor outside close 0 100 false 5 no_registers).0
    ≡ (6, no_registers)
unfolding execute_physical_action
executed_close = refl
