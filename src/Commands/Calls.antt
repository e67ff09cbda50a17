-- ===== src/Commands/Calls.antt =====
-- The calls of app/services/commands.py as steps, for statements about every sequence of calls.
use rebooter_droids.Base.{ℕ, String, Bool, Option, List, [], ◌∷◌}
use rebooter_droids.Base.Result.{Result, ok, err}
use rebooter_droids.Commands.Types.{Command, CommandResult, Store, Error}
use rebooter_droids.Commands.Queue.{Request, FanOut, enqueue_for_device, enqueue_for_group}
use rebooter_droids.Commands.Lifecycle.{
  list_pending_for_device, cancel_pending_command, Report, record_result, expire_overdue_commands,
}

-- The calls that change the tables, each with the clock it reads; `fans_out` has the ids to draw.
pub data Call : Type 0 where
  enqueues : String → String → Option String → Request → Call
  fans_out : (ℕ → String) → String → Request → Call
  lists : String → Bool → Option ℕ → Call
  cancels : String → Call
  reports : String → String → Report → Call
  expires : Call

-- A call that raises leaves the tables as they were.
abbrev pub after_enqueue : Store → Result Error (Command × Store) → Store
after_enqueue s (ok (c, s')) = s'
after_enqueue s (err e) = s

abbrev pub after_group : Store → Result Error FanOut → Store
after_group s (ok f) = f.store
after_group s (err e) = s

abbrev pub after_result : Store → Result Error (CommandResult × Store) → Store
after_result s (ok (row, s')) = s'
after_result s (err e) = s

unfoldable pub step : Store → ℕ × Call → Store
step s (now, enqueues id device_id gid r) =
    after_enqueue s (enqueue_for_device now id device_id gid r s)
step s (now, fans_out ids gid r) = after_group s (enqueue_for_group now ids gid r s)
step s (now, lists device_id m grace) = (list_pending_for_device now device_id m grace s).1
step s (now, cancels id) = (cancel_pending_command now id s).1
step s (now, reports device_id id r) = after_result s (record_result now device_id id r s)
step s (now, expires) = (expire_overdue_commands now s).1

unfoldable pub run : Store → List (ℕ × Call) → Store
unfolding step
run s [] = s
run s (c ∷ cs) = run (step s c) cs
