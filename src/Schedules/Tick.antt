-- ===== src/Schedules/Tick.antt =====
-- The tick: app/services/schedule_runtime.py. The clock and the ids that `new_id` mints are
-- parameters; every command goes through `enqueue_for_device`, in a transaction of its own.
pub mod Guard
pub mod Once
use rebooter_droids.Base.{
  ℕ, zero, suc, ◌+◌, String, Bool, true, false, Option, none, some, List, [], ◌∷◌, ltb, nat_eq,
  if◌then◌else◌,
}
use rebooter_droids.Base.Result.{Result, ok, err}
use rebooter_droids.Base.Table.{Table}
use rebooter_droids.Commands.Types.{relay_cycle, Error}
use rebooter_droids.Commands.Queue.{Request}
use rebooter_droids.Watchdog.Types.{Hub}
use rebooter_droids.Watchdog.Actions.{resolve_target_devices, request, cycle_payload, enqueue}
use rebooter_droids.Schedules.Types.{
  Schedule, Kind, power_cycle, maintenance, Outcome, maintenance_window_open, no_target_devices,
  enqueued, unsupported_kind,
}
use rebooter_droids.Schedules.Next.{ClockError, compute_next_run_at}
use rebooter_droids.Schedules.Flags.{Flag}
use rebooter_droids.Schedules.Reconcile.{reconcile_maintenance_flag}

pub record Stats : Type 0 where
  pub fired : ℕ
  pub errors : ℕ
  pub considered : ℕ

abbrev pub no_stats : Stats
no_stats = record { fired = 0; errors = 0; considered = 0 }

-- The hub and the two counts of the loop of `_fire_power_cycle`.
pub record Count : Type 0 where
  pub hub : Hub
  pub enqueued : ℕ
  pub failed : ℕ

-- The tick's transaction, or the exception that leaves it: the rows are rolled back then, and the
-- commands that were queued stay.
pub data Loop : Type 0 where
  done : Table Schedule → Hub → Stats → Loop
  raised : ClockError → Hub → Loop

pub data Step : Type 0 where
  stepped : Schedule → Hub → Stats → Step
  failed_step : ClockError → Hub → Step

-- The body of the `try`, and its `except`.
abbrev pub count_one : Count → Result Error String × Hub → Count
count_one c (ok id, h) = record c { hub = h; enqueued = c.enqueued + 1 }
count_one c (err e, h) = record c { hub = h; failed = c.failed + 1 }

abbrev report : Count → Outcome × Hub
report c = (enqueued c.enqueued c.failed, c.hub)

-- `s.next_run_at = compute_next_run_at(s, now=now)`
abbrev pub set_next : Schedule → Hub → Stats → Result ClockError (Option ℕ) → Step
set_next s h st (ok t) = stepped (record s { next_run_at = t }) h st
set_next s h st (err e) = failed_step e h

abbrev pub cons_row : String → Schedule → Loop → Loop
cons_row id s (done rows h st) = done ((id, s) ∷ rows) h st
cons_row id s (raised e h) = raised e h

-- The rest of the loop after a step, if there is one.
abbrev pub then_rest : String → (Hub → Stats → Loop) → Step → Loop
then_rest id rest (stepped s h st) = cons_row id s (rest h st)
then_rest id rest (failed_step e h) = raised e h

-- The tables after the tick.
pub record Pass : Type 0 where
  pub rows : Table Schedule
  pub hub : Hub
  pub flag : Option Flag
  pub stats : Option Stats

module _ (now : ℕ) (ids : ℕ → String) where
  unfoldable pub cycle_each : Request → List String → Count → Count
  cycle_each r [] c = c
  cycle_each r (did ∷ rest) c = cycle_each r rest (count_one c (enqueue now ids r did c.hub))

  abbrev pub cycle_devices : Request → List String → Hub → Outcome × Hub
  cycle_devices r [] h = (no_target_devices, h)
  cycle_devices r (did ∷ rest) h =
      report (cycle_each r (did ∷ rest) (record { hub = h; enqueued = 0; failed = 0 }))

  unfoldable pub fire_power_cycle : Schedule → Hub → Outcome × Hub
  unfolding cycle_each resolve_target_devices
  fire_power_cycle s h =
      cycle_devices
        (request relay_cycle
          (some (cycle_payload s.power_off_seconds s.post_reboot_holdoff_seconds)) false)
        (resolve_target_devices h.store.memberships s.target) h

  abbrev pub fire_kind : Kind → Schedule → Hub → Outcome × Hub
  fire_kind power_cycle s h = fire_power_cycle s h
  fire_kind maintenance s h = (maintenance_window_open, h)
  fire_kind (Kind.other text) s h = (unsupported_kind text, h)

  -- `_fire_schedule`; no branch raises, so the tick's `except` is not reached.
  unfoldable pub fire_schedule : Schedule → Hub → Outcome × Hub
  unfolding fire_power_cycle
  fire_schedule s h = fire_kind s.kind s h

  -- What the tick does once the schedule has fired.
  abbrev pub after_fire : Schedule → Stats → Outcome × Hub → Step
  after_fire s st (outcome, h) =
      let ran = record s { last_outcome = some outcome; last_run_at = some now } in
      set_next ran h (record st { fired = st.fired + 1 }) (compute_next_run_at now ran)

  -- The loop body, on `next_run_at`.
  abbrev pub step_at : Schedule → Hub → Stats → Option ℕ → Step
  step_at s h st none = set_next s h st (compute_next_run_at now s)
  step_at s h st (some t) =
      if ltb now t then stepped s h st else after_fire s st (fire_schedule s h)

  unfoldable pub step : Schedule → Hub → Stats → Step
  unfolding fire_schedule compute_next_run_at
  step s h st = step_at s h (record st { considered = st.considered + 1 }) s.next_run_at

  -- The loop over the rows that are enabled.
  unfoldable pub tick_rows : Table Schedule → Hub → Stats → Loop
  unfolding step
  tick_rows [] h st = done [] h st
  tick_rows ((id, s) ∷ rest) h st =
      let others = tick_rows rest in
      if s.enabled then then_rest id others (step s h st) else cons_row id s (others h st)

  abbrev pub settle : Table Schedule → Option Flag → Loop → Pass
  settle before flag (done rows h st) = record {
    rows = rows;
    hub = h;
    flag = reconcile_maintenance_flag now rows flag;
    stats = some st;
  }
  settle before flag (raised e h) = record { rows = before; hub = h; flag = flag; stats = none }

  -- `tick`; switched off by the environment, it touches nothing.
  unfoldable pub tick : Bool → Table Schedule → Hub → Option Flag → Pass
  unfolding tick_rows reconcile_maintenance_flag
  tick is_off rows h flag =
      if is_off
      then record { rows = rows; hub = h; flag = flag; stats = some no_stats }
      else settle rows flag (tick_rows rows h no_stats)
