-- ===== src/Events/Correlation.antt =====
-- eyeflow-server/src/events/event-correlation.service.ts. A timer is armed exactly while its entry
-- stands in the map: `clearTimeout` goes with each removal, and the callback removes the entry
-- first. The clock enters as `now`.
pub mod Laws
mod Examples
use eyeflow.Common.{ℕ, ◌+◌, ◌-◌, String, Bool, true, false, Option, none, some, List, [], ltb}
use eyeflow.Common.Eq.{string_equality}
use eyeflow.Common.JsMap.{lookup, insert, delete}

pub record WindowEntry : Type 0 where
  pub instance_id : String
  pub machine_id : String
  pub started_at : ℕ
  pub expires_at : ℕ
  pub window_ms : ℕ

abbrev pub Windows : Type 0
Windows = List (String × WindowEntry)

unfoldable pub start_window : ℕ → String → String → ℕ → Windows → Windows × WindowEntry
unfolding lookup insert
start_window now instance_id machine_id window_ms ws =
    let entry : WindowEntry = record {
      instance_id = instance_id;
      machine_id = machine_id;
      started_at = now;
      expires_at = now + window_ms;
      window_ms = window_ms;
    } in
    elim (lookup instance_id ws) [
      | some active ↦ (ws, active)
      | none ↦ (insert instance_id entry ws, entry)
    ]

unfoldable pub cancel_window : String → Windows → Windows × Bool
unfolding lookup delete
cancel_window instance_id ws = elim (lookup instance_id ws) [
  | none ↦ (ws, false)
  | some _ ↦ (delete instance_id ws, true)
]

-- What the timer's callback does to the map before it calls `onExpired`.
unfoldable pub expire_window : String → Windows → Windows
unfolding delete
expire_window instance_id ws = delete instance_id ws

unfoldable pub is_window_active : ℕ → String → Windows → Bool
unfolding lookup
is_window_active now instance_id ws = elim (lookup instance_id ws) [
  | none ↦ false
  | some entry ↦ ltb now entry.expires_at
]

-- `Math.max(0, expiresAt - now)` is the truncated difference.
unfoldable pub remaining_ms : ℕ → String → Windows → ℕ
unfolding lookup
remaining_ms now instance_id ws = elim (lookup instance_id ws) [
  | none ↦ 0
  | some entry ↦ entry.expires_at - now
]

unfoldable pub cancel_all : Windows → Windows
cancel_all ws = []
