-- ===== src/Events/Correlation/Laws.antt =====
-- Windows by instance (eyeflow-server/src/events/event-correlation.service.ts).
use eyeflow.Common.{ℕ, ◌+◌, ◌<◌, ◌≡◌, ◌↔◌, String, true, none, some, arith, if◌then◌else◌}
use eyeflow.Common.Eq.{◌==◌, string_equality}
use eyeflow.Common.JsMap.{lookup, lookup-insert, lookup-delete}
use eyeflow.Events.Correlation.{
  Windows, start_window, cancel_window, is_window_active, remaining_ms,
}

-- After a cancellation the instance has no window, and the windows of the other instances are what
-- they were.
pub lookup-cancel_window :
    (i j : String) (ws : Windows)
    → lookup j (cancel_window i ws).0 ≡ (if i == j then none else lookup j ws)
unfolding cancel_window
lookup-cancel_window i j ws = ground (arith, lookup-delete i j ws, string_equality.test_iff i j)

-- After a start the instance's window is the one that the call returns, and the windows of the
-- other instances are what they were.
pub lookup-start_window :
    (now : ℕ) (i j m : String) (ms : ℕ) (ws : Windows)
    → lookup j (start_window now i m ms ws).0
      ≡ (if i == j then some (start_window now i m ms ws).1 else lookup j ws)
unfolding start_window
lookup-start_window now i j m ms ws = ground (
  arith,
  string_equality.test_iff i j,
  lookup-insert i j
      (record {
        instance_id = i;
        machine_id = m;
        started_at = now;
        expires_at = now + ms;
        window_ms = ms;
      })
      ws,
)

-- At every time, `isWindowActive` answers true exactly if `remainingMs` is greater than zero.
pub is_window_active_iff :
    (now : ℕ) (i : String) (ws : Windows)
    → (is_window_active now i ws ≡ true) ↔ (0 < remaining_ms now i ws)
unfolding is_window_active remaining_ms
is_window_active_iff now i ws = ground arith
