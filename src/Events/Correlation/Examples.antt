-- ===== src/Events/Correlation/Examples.antt =====
-- Small runs of the windows (eyeflow-server/src/events/event-correlation.service.ts).
use eyeflow.Common.{◌<◌, ◌≡◌, ◌↔◌, refl, none, some, [], ◌∷◌, true}
use eyeflow.Common.Eq.{string_equality}
use eyeflow.Common.JsMap.{lookup}
use eyeflow.Events.Correlation.{
  WindowEntry, Windows, start_window, cancel_window, is_window_active, remaining_ms,
}
use eyeflow.Events.Correlation.Laws.{is_window_active_iff}

abbrev entry : WindowEntry
entry = record {
  instance_id = "i";
  machine_id = "m";
  started_at = 10;
  expires_at = 60;
  window_ms = 50;
}

abbrev windows : Windows
windows = ("i", entry) ∷ []

cancelled : lookup "i" (cancel_window "i" windows).0 ≡ none
unfolding cancel_window lookup
cancelled = refl

restarted_keeps :
    lookup "i" (start_window 20 "i" "m" 100 windows).0
    ≡ some (start_window 20 "i" "m" 100 windows).1
unfolding start_window lookup
restarted_keeps = refl

restarted_same : (start_window 20 "i" "m" 100 windows).1 ≡ entry
unfolding start_window
restarted_same = refl

active_at_20 : (is_window_active 20 "i" windows ≡ true) ↔ (0 < remaining_ms 20 "i" windows)
active_at_20 = is_window_active_iff 20 "i" windows
