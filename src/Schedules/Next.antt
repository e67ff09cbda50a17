-- ===== src/Schedules/Next.antt =====
-- `compute_next_run_at` of app/services/schedules.py.
pub mod Dates
pub mod Laws
use rebooter_droids.Base.{
  ℕ, zero, suc, ◌+◌, ◌*◌, ◌/◌, ◌%◌, Bool, true, false, ◌&&◌, ◌||◌, Option, none, some, List, [],
  ◌∷◌, any, nat_eq, leb, ltb, day, minutes, if◌then◌else◌,
}
use rebooter_droids.Base.Result.{Result, ok, err, ◌>>=◌}
use rebooter_droids.Schedules.Types.{
  Schedule, Recurrence, once, daily, weekly, AtTime, no_time, malformed, at,
}

-- What `datetime.replace` raises for an hour or a minute that no clock has.
pub data ClockError : Type 0 where
  value_error : ClockError

-- The time of the day, in microseconds from midnight.
abbrev pub clock : ℕ → ℕ → ℕ
clock hh mm = minutes (hh * 60 + mm)

-- `now.replace(hour=hh, minute=mm, second=0, microsecond=0)`
abbrev pub replace_time : ℕ → ℕ → ℕ → Result ClockError ℕ
replace_time now hh mm =
    if ltb hh 24 && ltb mm 60 then ok (now / day * day + clock hh mm) else err value_error

-- `datetime.weekday`, 0 for a Monday.
abbrev pub weekday : ℕ → ℕ
weekday t = t / day % 7

unfoldable pub is_listed : List ℕ → ℕ → Bool
is_listed days t = any (nat_eq (weekday t)) days

-- `for _ in range(7)`, by the rounds that are left.
unfoldable pub walk : ℕ → List ℕ → ℕ → Option ℕ
unfolding is_listed
walk zero days candidate = none
walk (suc n) days candidate =
    let later = walk n days (candidate + day) in
    if is_listed days candidate then some candidate else later

-- `if candidate <= now: candidate += timedelta(days=1)`
abbrev pub upcoming : ℕ → ℕ → ℕ
upcoming now candidate = if leb candidate now then candidate + day else candidate

abbrev pub recurring : ℕ → Recurrence → List ℕ → ℕ → Option ℕ
recurring now daily days candidate = some (upcoming now candidate)
recurring now weekly [] candidate = none
recurring now weekly (d ∷ ds) candidate = walk 7 (d ∷ ds) (upcoming now candidate)
recurring now _ days candidate = none

-- The part for daily and weekly schedules.
abbrev pub next_at : ℕ → Recurrence → List ℕ → AtTime → Result ClockError (Option ℕ)
next_at now r days no_time = ok none
next_at now r days malformed = ok none
next_at now r days (at hh mm) = do
  candidate ← replace_time now hh mm
  ok (recurring now r days candidate)

-- The part for one-shot schedules, on `start_at` and `last_run_at`.
abbrev pub next_once : ℕ → Option ℕ → Option ℕ → Option ℕ
next_once now none last_run_at = none
next_once now (some start_at) (some ran_at) = none
next_once now (some start_at) none = if ltb now start_at then some start_at else none

abbrev pub next_by : ℕ → Schedule → Recurrence → Result ClockError (Option ℕ)
next_by now s once = ok (next_once now s.start_at s.last_run_at)
next_by now s daily = next_at now daily s.weekdays s.at_time_utc
next_by now s weekly = next_at now weekly s.weekdays s.at_time_utc
next_by now s (Recurrence.other text) = ok none

unfoldable pub compute_next_run_at : ℕ → Schedule → Result ClockError (Option ℕ)
unfolding walk
compute_next_run_at now s = next_by now s s.recurrence
