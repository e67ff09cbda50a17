-- ===== src/Commands/Lifecycle/Reports.antt =====
-- What reports and expiry do to a command, and what a late report undoes.
use rebooter_droids.Base.{
  ℕ, ◌<◌, String, Bool, true, Option-cases, inl, inr, none, some, ◌≡◌, refl, arith, eq_refl, ◌==◌,
  [], ◌∷◌, ◌++◌, is_some, In,
}
use rebooter_droids.Base.Result.{ok}
use rebooter_droids.Base.Table.{Table, get, put, update, updated, get-put, get-update}
use rebooter_droids.Base.Table.Keyed.{IsKeyed, put-IsKeyed}
use rebooter_droids.Commands.Types.{Command, CommandResult, Store, is_active, is_result_status}
use rebooter_droids.Commands.Lifecycle.{
  Report, reported, result_row, record_result, expire, count_overdue, expire_overdue_commands,
  list_pending_for_device,
}
use rebooter_droids.Commands.Lifecycle.Delivery.{deliverable-IsDue_iff, handed, list_pending-In_iff}

none_left : (now : ℕ) (t : Table Command) → count_overdue now (update (λ _ c. expire now c) t) ≡ 0
unfolding count_overdue update
none_left now [] = refl
none_left now ((k, c) ∷ t) = ground (arith, none_left now t)

-- After `expire_overdue_commands` no active command is past its time, and every row that was not
-- overdue is as it was.
pub expire-none_overdue :
    (now : ℕ) (s : Store) (k : String)
    → let s' = (expire_overdue_commands now s).1 in
      (get k s'.commands ≡ updated (λ _ c. expire now c) k (get k s.commands))
      × (count_overdue now s'.commands ≡ 0)
unfolding expire_overdue_commands
expire-none_overdue now s k =
    (get-update (λ _ c. expire now c) k s.commands, none_left now s.commands)

-- A report that is taken rewrites the row that it names.
record_result-stored :
    (now : ℕ) (device_id id : String) (r : Report) (s : Store) {row : CommandResult} {s' : Store}
    → record_result now device_id id r s ≡ ok (row, s')
    → (c : Command) × (get id s.commands ≡ some c) × (get id s'.commands ≡ some (reported now r c))
unfolding record_result
record_result-stored now device_id id r s h = elim (Option-cases (get id s.commands)) [
  | inl e ↦ absurd (ground (arith, e))
  | inr (c, e) ↦ (c, e, ground (arith, e, get-put id id (reported now r c) s.commands, eq_refl id))
]

-- The first report stamps the acknowledgement, and no later report moves it.
pub record_result-ack_once :
    (t1 t2 : ℕ) (device_id id : String) (r1 r2 : Report) (s : Store) {row1 row2 : CommandResult}
    {s1 s2 : Store}
    → record_result t1 device_id id r1 s ≡ ok (row1, s1)
    → record_result t2 device_id id r2 s1 ≡ ok (row2, s2)
    → (c1 c2 : Command) → get id s1.commands ≡ some c1
    → get id s2.commands ≡ some c2
    → (is_some c1.ack_received_at ≡ true) × (c2.ack_received_at ≡ c1.ack_received_at)
record_result-ack_once t1 t2 device_id id r1 r2 s {row1} {row2} {s1} {s2} h1 h2 c1 c2 g1 g2 =
    let (a, _, first) = record_result-stored t1 device_id id r1 s h1 in
    let (b, again, second) = record_result-stored t2 device_id id r2 s1 h2 in
    ground (arith, first, again, second)

-- A report is taken whatever the command's status is, so a late `accepted` or `running` report on a
-- command that has completed, failed or been cancelled puts it back among those that a poll without
-- a grace window delivers, until it expires.
pub record_result-revives :
    (t1 t2 : ℕ) (device_id id : String) (r : Report) (m : Bool) (s : Store) (c : Command)
    → IsKeyed s.commands
    → get id s.commands ≡ some c
    → (c.device_id == device_id) ≡ true
    → is_active r.status ≡ true
    → is_result_status r.status ≡ true
    → t2 < c.expires_at
    → (row : CommandResult) × (s' : Store) × (record_result t1 device_id id r s ≡ ok (row, s'))
      × In (id, handed m t2 (reported t1 r c)) (list_pending_for_device t2 device_id m none s').0
unfolding record_result
record_result-revives t1 t2 device_id id r m s c keyed found own active allowed live =
    let c' = reported t1 r c in
    (
      result_row t1 device_id id r,
      s',
      ground (arith, found),
      (list_pending-In_iff t2 device_id m none s' id (handed m t2 c')
            (put-IsKeyed id c' s.commands keyed)).1
          (
            c',
            ground (arith, get-put id id c' s.commands, eq_refl id),
            (deliverable-IsDue_iff t2 device_id none c').0 (ground arith),
            refl,
          ),
    )
  where
    s' : Store
    s' = record s {
      commands = put id (reported t1 r c) s.commands;
      results = s.results ++ result_row t1 device_id id r ∷ [];
    }
