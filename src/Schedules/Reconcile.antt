-- ===== src/Schedules/Reconcile.antt =====
-- `_reconcile_maintenance_flag` of app/services/schedule_runtime.py.
pub mod Laws
use rebooter_droids.Base.{
  ℕ, ◌+◌, String, Bool, true, false, not, ◌&&◌, ◌||◌, Option, none, some, List, [], ◌∷◌, is_some,
  leb, seconds, if◌then◌else◌,
}
use rebooter_droids.Base.Table.{Table}
use rebooter_droids.Base.Json.{codes, codes_eq}
use rebooter_droids.Schedules.Types.{Schedule, is_maintenance}
use rebooter_droids.Schedules.Flags.{
  Flag, Maintenance, maintenance_mode_details, is_maintenance_mode_active, set_maintenance_mode,
}

-- `last_run_at <= now <= window_end`
abbrev pub covers : ℕ → Schedule → Option ℕ → Bool
covers now s none = false
covers now s (some ran_at) = leb ran_at now && leb now (ran_at + seconds s.duration_seconds)

-- A maintenance schedule that is in its window.
abbrev pub is_open : ℕ → Schedule → Bool
is_open now s = is_maintenance s.kind && s.enabled && covers now s s.last_run_at

-- The start of the first window that covers now.
unfoldable pub active_window_start : ℕ → Table Schedule → Option ℕ
active_window_start now [] = none
active_window_start now ((id, s) ∷ rest) =
    let later = active_window_start now rest in if is_open now s then s.last_run_at else later

-- `operator_overrode_in_this_window`
abbrev pub overrode : ℕ → Option ℕ → Bool
overrode start none = false
overrode start (some override_at) = leb start override_at

abbrev pub is_scheduled : Option (List ℕ) → Bool
is_scheduled none = false
is_scheduled (some r) = codes_eq r (codes "schedule")

-- The flips, in a window that starts at the given instant, and outside all windows.
abbrev pub flip : ℕ → Option Flag → Option ℕ → Option Flag
flip now flag (some start) =
    if not (is_maintenance_mode_active flag)
      && not (overrode start (maintenance_mode_details flag).operator_override_at)
    then some (set_maintenance_mode now true none (some (codes "schedule")))
    else flag
flip now flag none =
    if is_maintenance_mode_active flag && is_scheduled (maintenance_mode_details flag).reason
    then some (set_maintenance_mode now false none (some (codes "schedule_window_ended")))
    else flag

unfoldable pub reconcile_maintenance_flag : ℕ → Table Schedule → Option Flag → Option Flag
unfolding active_window_start set_maintenance_mode
reconcile_maintenance_flag now schedules flag = flip now flag (active_window_start now schedules)
