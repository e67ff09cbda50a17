-- ===== src/Commands/Consistency.antt =====
-- Every sequence of calls keeps the command rows consistent.
use rebooter_droids.Base.{
  ℕ, suc, String, true, false, Option, Option-cases, inl, inr, some, ◌≡◌, arith, List, [], ◌∷◌,
  ◌==◌, Bool-cases, subst, sym,
}
use rebooter_droids.Base.Result.{Result-cases}
use rebooter_droids.Base.Table.{get}
use rebooter_droids.Base.Json.{Fields}
use rebooter_droids.Commands.Types.{
  cancelled, is_allowed, is_pending, Command, Store, is_result_status,
}
use rebooter_droids.Commands.Payload.{validate_payload}
use rebooter_droids.Commands.Queue.{
  Request, new_command, is_locked, FanOut, fan_out_one, fan_out, members, enqueue_for_device,
  enqueue_for_group,
}
use rebooter_droids.Commands.Queue.Single.{Queued, enqueue-Queued}
use rebooter_droids.Commands.Lifecycle.{
  list_pending_for_device, cancel_pending_command, Report, reported, record_result,
  expire_overdue_commands,
}
use rebooter_droids.Commands.Calls.{
  Call, enqueues, fans_out, lists, cancels, reports, expires, after_enqueue, after_group,
  after_result, step, run,
}
use rebooter_droids.Commands.Lifecycle.Invariant.{
  IsConsistent, AllConsistent, new_command-IsConsistent, delivered-IsConsistent,
  reported-IsConsistent, expire-IsConsistent, put-AllConsistent, update-AllConsistent,
}

enqueue-AllConsistent :
    (s : Store) (now : ℕ) (id device_id : String) (gid : Option String) (r : Request)
    → AllConsistent s.commands
    → AllConsistent (after_enqueue s (enqueue_for_device now id device_id gid r s)).commands
enqueue-AllConsistent s now id device_id gid r a =
    elim (Result-cases (enqueue_for_device now id device_id gid r s)) [
      | inl ((c, s'), e) ↦
          rw e (queued-AllConsistent s' c (enqueue-Queued now id device_id gid r s e))
      | inr (bad, e) ↦ rw e a
    ]
  where
    queued-AllConsistent :
        (s' : Store) (c : Command)
        → Queued now id device_id gid r s c s'
        → AllConsistent s'.commands
    queued-AllConsistent s' c q k d found = elim (Bool-cases (id == k)) [
      | inl own ↦ subst IsConsistent (ground (arith, own, q.commands k)) (
          subst IsConsistent (sym q.queued)
            (new_command-IsConsistent now device_id gid c.payload r))
      | inr elsewhere ↦ a k d (ground (arith, elsewhere, q.commands k))
    ]

fan_out_one-AllConsistent :
    (now : ℕ) (id gid : String) (payload : Fields) (r : Request) (d : String) (f : FanOut)
    → AllConsistent f.store.commands
    → AllConsistent (fan_out_one now id gid payload r d f).store.commands
unfolding fan_out_one
fan_out_one-AllConsistent now id gid payload r d f a = elim (Option-cases (get d f.store.devices)) [
  | inl e ↦ rw (e, fan_out_one) a
  | inr (t, e) ↦ elim (Bool-cases (is_locked r t)) [
    | inl l ↦ rw (e, fan_out_one, l) a
    | inr l ↦
        rw (e, fan_out_one, l)
          (put-AllConsistent id (new_command now d (some gid) payload r) f.store.commands
            (new_command-IsConsistent now d (some gid) payload r) a)
  ]
]

fan_out-AllConsistent :
    (now : ℕ) (ids : ℕ → String) (gid : String) (payload : Fields) (r : Request) (n : ℕ)
    (ds : List String) (f : FanOut)
    → AllConsistent f.store.commands
    → AllConsistent (fan_out now ids gid payload r n ds f).store.commands
unfolding fan_out
fan_out-AllConsistent now ids gid payload r n [] f a = a
fan_out-AllConsistent now ids gid payload r n (d ∷ ds) f a =
    fan_out-AllConsistent now ids gid payload r (suc n) ds
      (fan_out_one now (ids n) gid payload r d f)
      (fan_out_one-AllConsistent now (ids n) gid payload r d f a)

group-AllConsistent :
    (s : Store) (now : ℕ) (ids : ℕ → String) (gid : String) (r : Request)
    → AllConsistent s.commands
    → AllConsistent (after_group s (enqueue_for_group now ids gid r s)).commands
unfolding enqueue_for_group
group-AllConsistent s now ids gid r a = elim (Bool-cases (is_allowed r.cmd_type)) [
  | inl allowed ↦ elim (Result-cases (validate_payload r.cmd_type r.payload)) [
    | inl (payload, e) ↦
        rw (allowed, e)
          (fan_out-AllConsistent now ids gid payload (record r { set_hold_off = false }) 0
            (members gid s.memberships) (record { store = s; created = []; skipped = [] }) a)
    | inr (bad, e) ↦ rw (allowed, e) a
  ]
  | inr refused ↦ rw refused a
]

cancel-AllConsistent :
    (s : Store) (now : ℕ) (id : String)
    → AllConsistent s.commands
    → AllConsistent (cancel_pending_command now id s).1.commands
unfolding cancel_pending_command
cancel-AllConsistent s now id a = elim (Option-cases (get id s.commands)) [
  | inl e ↦ rw e a
  | inr (c, e) ↦ elim (Bool-cases (is_pending c.status)) [
    | inl p ↦
        rw (e, p)
          (put-AllConsistent id (record c { status = cancelled; completed_at = some now })
            s.commands (cancelled-IsConsistent c p (a id c e)) a)
    | inr p ↦ rw (e, p) a
  ]
]
  where
    cancelled-IsConsistent :
        (c : Command)
        → is_pending c.status ≡ true
        → IsConsistent c
        → IsConsistent (record c { status = cancelled; completed_at = some now })
    cancelled-IsConsistent c p h = ground arith

result-AllConsistent :
    (s : Store) (now : ℕ) (device_id id : String) (r : Report)
    → AllConsistent s.commands
    → AllConsistent (after_result s (record_result now device_id id r s)).commands
unfolding record_result
result-AllConsistent s now device_id id r a = elim (Bool-cases (is_result_status r.status)) [
  | inl allowed ↦ elim (Option-cases (get id s.commands)) [
    | inl e ↦ rw (allowed, e) a
    | inr (c, e) ↦ elim (Bool-cases (c.device_id == device_id)) [
      | inl own ↦
          rw (allowed, e, own)
            (put-AllConsistent id (reported now r c) s.commands
              (reported-IsConsistent now r c allowed (a id c e)) a)
      | inr foreign ↦ rw (allowed, e, foreign) a
    ]
  ]
  | inr refused ↦ rw refused a
]

-- Every call, whether it returns or raises, keeps every command row consistent.
pub step-AllConsistent :
    (s : Store) (c : ℕ × Call) → AllConsistent s.commands → AllConsistent (step s c).commands
unfolding step
step-AllConsistent s (now, enqueues id device_id gid r) a =
    enqueue-AllConsistent s now id device_id gid r a
step-AllConsistent s (now, fans_out ids gid r) a = group-AllConsistent s now ids gid r a
step-AllConsistent s (now, lists device_id m grace) a =
    unfold list_pending_for_device in
    update-AllConsistent _ s.commands (λ _ c. delivered-IsConsistent now device_id m grace c) a
step-AllConsistent s (now, cancels id) a = cancel-AllConsistent s now id a
step-AllConsistent s (now, reports device_id id r) a = result-AllConsistent s now device_id id r a
step-AllConsistent s (now, expires) a =
    unfold expire_overdue_commands in
    update-AllConsistent _ s.commands (λ _ c. expire-IsConsistent now c) a

-- Whatever calls are made, in whatever order and with whatever clock readings, from a table whose
-- rows are consistent (`IsConsistent`: a pending or cancelled command was never handed off or
-- acknowledged, a pending one has no completion time, a cancelled or acknowledged one has one), every
-- row of the command table stays consistent.
pub run-AllConsistent :
    (s : Store) (cs : List (ℕ × Call))
    → AllConsistent s.commands
    → AllConsistent (run s cs).commands
unfolding run
run-AllConsistent s [] a = a
run-AllConsistent s (c ∷ cs) a = run-AllConsistent (step s c) cs (step-AllConsistent s c a)
