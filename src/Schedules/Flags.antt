-- ===== src/Schedules/Flags.antt =====
-- The maintenance flag: app/services/runtime_flags.py. A reason is a list of code points, and the
-- two times of the payload, which the source keeps as ISO texts of datetimes, are instants.
use rebooter_droids.Base.{
  ℕ, String, Bool, false, ◌||◌, Option, none, some, List, ◌++◌, take, length, ltb, if◌then◌else◌,
}
use rebooter_droids.Base.Json.{codes, codes_eq}

-- The payload of `set_maintenance_mode`.
pub record Maintenance : Type 0 where
  pub is_on : Bool
  pub reason : Option (List ℕ)
  pub set_at : Option ℕ
  pub operator_override_at : Option ℕ

-- The value of the flag: a dict, or another value of which only the truth is read.
pub data Value : Type 0 where
  dict : Maintenance → Value
  plain : Bool → Value

-- A row of `runtime_flags`.
pub record Flag : Type 0 where
  pub value : Value
  pub updated_at : ℕ
  pub updated_by_user_id : Option String

-- `{"on": False}` and its like: no reason and no times.
abbrev pub only_on : Bool → Maintenance
only_on b = record { is_on = b; reason = none; set_at = none; operator_override_at = none }

abbrev details_of : Value → Maintenance
details_of (dict m) = m
details_of (plain b) = only_on b

-- `maintenance_mode_details`, on the row of the flag, if there is one.
abbrev pub maintenance_mode_details : Option Flag → Maintenance
maintenance_mode_details none = only_on false
maintenance_mode_details (some f) = details_of f.value

-- `is_maintenance_mode_active`
abbrev pub is_maintenance_mode_active : Option Flag → Bool
is_maintenance_mode_active f = (maintenance_mode_details f).is_on

-- `reason[:197] + "..."` for a reason of more than 200 characters.
abbrev pub cap_reason : Option (List ℕ) → Option (List ℕ)
cap_reason none = none
cap_reason (some r) = if ltb 200 (length r) then some (take 197 r ++ codes "...") else some r

-- `reason in ("schedule", "schedule_window_ended")`
abbrev pub is_own_reason : Option (List ℕ) → Bool
is_own_reason none = false
is_own_reason (some r) = codes_eq r (codes "schedule") || codes_eq r (codes "schedule_window_ended")

abbrev stamped : ℕ → Bool → Option (List ℕ) → Maintenance
stamped now on reason = record {
  is_on = on;
  reason = reason;
  set_at = some now;
  operator_override_at = if is_own_reason reason then none else some now;
}

-- `set_maintenance_mode`, which replaces the row's value and says who set it.
unfoldable pub set_maintenance_mode : ℕ → Bool → Option String → Option (List ℕ) → Flag
set_maintenance_mode now on user_id reason = record {
  value = dict (stamped now on (cap_reason reason));
  updated_at = now;
  updated_by_user_id = user_id;
}
