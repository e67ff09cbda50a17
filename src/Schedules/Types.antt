-- ===== src/Schedules/Types.antt =====
-- The rows of `schedules`: app/models/schedules.py.
use rebooter_droids.Base.{ℕ, String, Bool, true, false, Option, List}
use rebooter_droids.Watchdog.Types.{Target}

-- `KNOWN_KINDS`, and any other text.
pub data Kind : Type 0 where
  power_cycle maintenance : Kind
  other : String → Kind

abbrev pub is_maintenance : Kind → Bool
is_maintenance maintenance = true
is_maintenance _ = false

-- `KNOWN_RECURRENCES`, and any other text.
pub data Recurrence : Type 0 where
  once daily weekly : Recurrence
  other : String → Recurrence

-- `at_time_utc`, as `split(":")` and `int` read it: missing or empty, not two numbers, or an hour
-- and a minute.
pub data AtTime : Type 0 where
  no_time malformed : AtTime
  at : ℕ → ℕ → AtTime

pub data Outcome : Type 0 where
  maintenance_window_open no_target_devices : Outcome
  enqueued : ℕ → ℕ → Outcome
  unsupported_kind : String → Outcome

-- The columns that the services read; the id is the key of the table.
pub record Schedule : Type 0 where
  pub enabled : Bool
  pub kind : Kind
  pub recurrence : Recurrence
  pub at_time_utc : AtTime
  pub weekdays : List ℕ
  pub start_at : Option ℕ
  pub duration_seconds : ℕ
  pub target : Target
  pub power_off_seconds : ℕ
  pub post_reboot_holdoff_seconds : ℕ
  pub last_run_at : Option ℕ
  pub next_run_at : Option ℕ
  pub last_outcome : Option Outcome
