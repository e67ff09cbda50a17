-- ===== src/Commands/Lifecycle.antt =====
-- The life of a queued command: `list_pending_for_device`, `cancel_pending_command`,
-- `record_result` and `expire_overdue_commands` of app/services/commands.py.
pub mod Invariant
pub mod Delivery
pub mod Reports
pub mod Handoff
use rebooter_droids.Base.{
  ℕ, suc, ◌+◌, String, Bool, true, false, ◌&&◌, Option, none, some, List, [], ◌∷◌, ◌++◌, ◌==◌, leb,
  ltb, seconds, if◌then◌else◌,
}
use rebooter_droids.Base.Result.{Result, ok, err, ◌>>=◌, ◌>>◌, require}
use rebooter_droids.Base.Table.{get, put, update}
use rebooter_droids.Base.Json.{Fields, end}
use rebooter_droids.Commands.Types.{
  Status, accepted, expired, cancelled, is_active, is_pending, is_result_status, Command,
  CommandResult, Store, Error, lookup_error, unsupported_result_status,
}

-- The grace filter: never handed off, or handed off at `now - grace` or before.
abbrev pub out_of_grace : ℕ → Option ℕ → Option ℕ → Bool
out_of_grace now none delivered = true
out_of_grace now (some grace) none = true
out_of_grace now (some grace) (some at) = leb (at + seconds grace) now

-- The `WHERE` of the query.
abbrev pub is_deliverable : ℕ → String → Option ℕ → Command → Bool
is_deliverable now device_id grace c =
    c.device_id == device_id
    && is_active c.status
    && ltb now c.expires_at
    && out_of_grace now grace c.delivered_at

-- The loop body: a pending row is accepted, and stamped as delivered.
abbrev pub mark : ℕ → Command → Command
mark now c =
    if is_pending c.status then record c { status = accepted; delivered_at = some now } else c

-- `ORDER BY created_at ASC`; rows of one instant keep the order of the table.
unfoldable pub insert_row : String × Command → List (String × Command) → List (String × Command)
insert_row (k, c) [] = (k, c) ∷ []
insert_row (k, c) ((j, d) ∷ rest) =
    if leb c.created_at d.created_at
    then (k, c) ∷ (j, d) ∷ rest
    else (j, d) ∷ insert_row (k, c) rest

unfoldable pub sort_rows : List (String × Command) → List (String × Command)
unfolding insert_row
sort_rows [] = []
sort_rows (row ∷ rest) = insert_row row (sort_rows rest)

-- The rows that the query selects, as the loop leaves them.
unfoldable pub selected :
    ℕ → String → Bool → Option ℕ → List (String × Command) → List (String × Command)
selected now device_id mark_delivered grace [] = []
selected now device_id mark_delivered grace ((k, c) ∷ rest) =
    let others = selected now device_id mark_delivered grace rest in
    if is_deliverable now device_id grace c
    then (k, if mark_delivered then mark now c else c) ∷ others
    else others

-- What the loop leaves of a row, selected or not.
abbrev pub delivered : ℕ → String → Bool → Option ℕ → Command → Command
delivered now device_id mark_delivered grace c =
    if mark_delivered && is_deliverable now device_id grace c then mark now c else c

unfoldable pub list_pending_for_device :
    ℕ → String → Bool → Option ℕ → Store → List (String × Command) × Store
list_pending_for_device now device_id mark_delivered grace s = (
  sort_rows (selected now device_id mark_delivered grace s.commands),
  record s { commands = update (λ _ c. delivered now device_id mark_delivered grace c) s.commands },
)

abbrev cancel_row : ℕ → String → Option Command → Store → Bool × Store
cancel_row now id none s = (false, s)
cancel_row now id (some c) s =
    if is_pending c.status
    then (
      true,
      record s {
        commands = put id (record c { status = cancelled; completed_at = some now }) s.commands;
      },
    )
    else (false, s)

unfoldable pub cancel_pending_command : ℕ → String → Store → Bool × Store
cancel_pending_command now id s = cancel_row now id (get id s.commands) s

-- What a device reports on a command.
pub record Report : Type 0 where
  pub status : Status
  pub message : Option String
  pub result : Option Fields
  pub completed_at : Option ℕ

abbrev pub or_now : ℕ → Option ℕ → ℕ
or_now now none = now
or_now now (some at) = at

abbrev pub or_empty : Option Fields → Fields
or_empty none = end
or_empty (some fields) = fields

-- `cmd is None or cmd.device_id != device_id`
abbrev own_command : String → String → Option Command → Result Error Command
own_command device_id id none = err (lookup_error id)
own_command device_id id (some c) = if c.device_id == device_id then ok c else err (lookup_error id)

abbrev pub result_row : ℕ → String → String → Report → CommandResult
result_row now device_id id r = record {
  command_id = id;
  device_id = device_id;
  status = r.status;
  message = r.message;
  result = or_empty r.result;
  completed_at = or_now now r.completed_at;
}

-- `ack_received_at` is stamped by the first report only.
abbrev pub reported : ℕ → Report → Command → Command
reported now r c = record c {
  ack_received_at = elim c.ack_received_at [ none ↦ some now | some at ↦ some at ];
  status = r.status;
  completed_at = some (or_now now r.completed_at);
}

unfoldable pub record_result :
    ℕ → String → String → Report → Store → Result Error (CommandResult × Store)
record_result now device_id id r s = do
  require (is_result_status r.status) (unsupported_result_status r.status)
  c ← own_command device_id id (get id s.commands)
  let row = result_row now device_id id r
  ok (
    row,
    record s { commands = put id (reported now r c) s.commands; results = s.results ++ row ∷ [] },
  )

abbrev pub is_overdue : ℕ → Command → Bool
is_overdue now c = is_active c.status && leb c.expires_at now

abbrev pub expire : ℕ → Command → Command
expire now c = if is_overdue now c then record c { status = expired } else c

-- `result.rowcount`
unfoldable pub count_overdue : ℕ → List (String × Command) → ℕ
count_overdue now [] = 0
count_overdue now ((k, c) ∷ rest) =
    let n = count_overdue now rest in if is_overdue now c then suc n else n

unfoldable pub expire_overdue_commands : ℕ → Store → ℕ × Store
expire_overdue_commands now s =
    (count_overdue now s.commands, record s { commands = update (λ _ c. expire now c) s.commands })
