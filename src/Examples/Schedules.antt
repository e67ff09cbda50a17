-- ===== src/Examples/Schedules.antt =====
-- Schedules over the devices of the command queue's examples. 2026-05-20 is a Wednesday.
use rebooter_droids.Base.{
  Bool, ◌<◌, ◌%◌, minutes, ℕ, ◌+◌, ◌≤◌, String, true, false, none, some, ◌≡◌, inl, inr, refl, arith,
  [], ◌∷◌, day, seconds, ◌*◌, List,
}
use rebooter_droids.Base.Result.{ok}
use rebooter_droids.Base.Table.{Table}
use rebooter_droids.Base.Json.{codes}
use rebooter_droids.Watchdog.Types.{Hub}
use rebooter_droids.Watchdog.Types
use rebooter_droids.Watchdog.Actions.Guard.{Guarded}
use rebooter_droids.Schedules.Types.{Schedule, power_cycle, maintenance, once, weekly, at, no_time}
use rebooter_droids.Schedules.Next.{clock, compute_next_run_at}
use rebooter_droids.Schedules.Next.Laws.{Fits, next_run-first, next_run_total}
use rebooter_droids.Schedules.Flags.{set_maintenance_mode, is_maintenance_mode_active}
use rebooter_droids.Schedules.Reconcile.{active_window_start, reconcile_maintenance_flag}
use rebooter_droids.Schedules.Reconcile.Laws.{reconcile-override, reconcile-mistaken}
use rebooter_droids.Schedules.Tick.{tick}
use rebooter_droids.Schedules.Tick.Guard.{schedule_tick-Guarded}
use rebooter_droids.Schedules.Tick.Once.{fires, once-fires}

-- Noon of a Wednesday, in the first week of the calendar's day 2 (days count from a Monday).
abbrev noon : ℕ
noon = 2 * day + clock 12 0

-- Mondays and Fridays at 06:30.
abbrev twice_a_week : Schedule
twice_a_week = record {
  enabled = true;
  kind = power_cycle;
  recurrence = weekly;
  at_time_utc = at 6 30;
  weekdays = 0 ∷ 4 ∷ [];
  start_at = none;
  duration_seconds = 0;
  target = Types.device "a";
  power_off_seconds = 5;
  post_reboot_holdoff_seconds = 180;
  last_run_at = none;
  next_run_at = none;
  last_outcome = none;
}

-- The Friday of that week.
friday : compute_next_run_at noon twice_a_week ≡ ok (some (4 * day + clock 6 30))
unfolding compute_next_run_at
friday = refl

next_run-first_example :
    let t = 4 * day + clock 6 30 in
    (noon < t)
    × (t % day ≡ minutes (6 * 60 + 30))
    × Fits weekly (0 ∷ 4 ∷ []) t
    × ((u : ℕ) → noon < u → u % day ≡ minutes (6 * 60 + 30) → Fits weekly (0 ∷ 4 ∷ []) u → t ≤ u)
next_run-first_example =
    next_run-first noon 6 30 twice_a_week refl refl (4 * day + clock 6 30) friday

next_run_total_example : (t : ℕ) × (compute_next_run_at noon twice_a_week ≡ ok (some t))
next_run_total_example =
    next_run_total noon 6 30 4 twice_a_week refl (omega arith) (omega arith)
      (inr (refl, omega arith, inr (inl refl)))

-- An hour of maintenance that opened at noon.
abbrev window : Schedule
window = record twice_a_week {
  kind = maintenance;
  duration_seconds = 3600;
  last_run_at = some noon;
}

abbrev windows : Table Schedule
windows = ("w", window) ∷ []

window_open : active_window_start (noon + seconds 60) windows ≡ some noon
unfolding active_window_start
window_open = refl

-- The operator switches maintenance off ten seconds into the window.
reconcile-override_example :
    let flag = set_maintenance_mode (noon + seconds 10) false (some "u1") (some (codes "done")) in
    reconcile_maintenance_flag (noon + seconds 60) windows (some flag) ≡ some flag
reconcile-override_example =
    reconcile-override (noon + seconds 10) (noon + seconds 60) noon (some "u1") windows window_open
      false (some (codes "done")) (omega arith) refl

reconcile-mistaken_example :
    let flag =
      set_maintenance_mode (noon + seconds 10) false (some "u1") (some (codes "schedule")) in
    is_maintenance_mode_active (reconcile_maintenance_flag (noon + seconds 60) windows (some flag))
    ≡ true
reconcile-mistaken_example =
    reconcile-mistaken (noon + seconds 10) (noon + seconds 60) noon (some "u1") windows window_open

abbrev hub : Hub
hub = record {
  store = record {
    devices =
        ("a", record { is_protected = false; is_held_off = false; local_ip = none })
        ∷ ("b", record { is_protected = true; is_held_off = false; local_ip = none })
        ∷ [];
    memberships = [];
    commands = [];
    results = [];
    published = [];
  };
  scenes = [];
  drawn = 0;
  events = [];
  notices = [];
}

abbrev one_id : ℕ → String
one_id n = "c1"

schedule_tick-Guarded_example :
    Guarded hub.store (tick noon one_id false (("s", twice_a_week) ∷ windows) hub none).hub.store
schedule_tick-Guarded_example =
    schedule_tick-Guarded noon one_id false (("s", twice_a_week) ∷ windows) hub none

-- One shot at noon, with a tick a minute before, one at noon and one after.
abbrev one_shot : Schedule
one_shot = record twice_a_week { recurrence = once; at_time_utc = no_time; start_at = some noon }

-- The first tick at noon is rolled back, the second one commits.
abbrev ticks_of_noon : List (ℕ × Hub × Bool)
ticks_of_noon =
    (2 * day, hub, true) ∷ (noon, hub, false) ∷ (noon, hub, true) ∷ (3 * day, hub, true) ∷ []

once-fires_example : fires one_id ticks_of_noon one_shot ≤ 1
once-fires_example = once-fires one_id ticks_of_noon one_shot refl refl
