-- ===== src/Commands/Lifecycle/Invariant.antt =====
-- What holds of every command row after any sequence of calls.
use rebooter_droids.Base.{
  ℕ, String, Bool, true, ◌&&◌, Option, Option-cases, inl, inr, none, some, ◌≡◌, arith, is_some,
  if_cases, subst,
}
use rebooter_droids.Base.Table.{Table, get, put, update, get-put, get-update}
use rebooter_droids.Base.Json.{Fields}
use rebooter_droids.Commands.Types.{pending, cancelled, Command, is_result_status}
use rebooter_droids.Commands.Queue.{Request, new_command}
use rebooter_droids.Commands.Lifecycle.{is_deliverable, mark, delivered, Report, reported, expire}

-- A pending command has not been handed off, acknowledged or completed; a cancelled one was never
-- handed off and has the time of its cancellation; and an acknowledged one has a completion time.
pub record IsConsistent (c : Command) : Type 0 where
  pub pending_untouched :
      c.status ≡ pending
      → (c.delivered_at ≡ none) × (c.ack_received_at ≡ none) × (c.completed_at ≡ none)
  pub cancelled_untouched :
      c.status ≡ cancelled
      → (c.delivered_at ≡ none) × (c.ack_received_at ≡ none) × (is_some c.completed_at ≡ true)
  pub acked_completed : is_some c.ack_received_at ≡ true → is_some c.completed_at ≡ true

abbrev pub AllConsistent : Table Command → Type 0
AllConsistent t = (k : String) (c : Command) → get k t ≡ some c → IsConsistent c

pub new_command-IsConsistent :
    (now : ℕ) (device_id : String) (gid : Option String) (payload : Fields) (r : Request)
    → IsConsistent (new_command now device_id gid payload r)
new_command-IsConsistent now device_id gid payload r = ground arith

pub mark-IsConsistent : (now : ℕ) (c : Command) → IsConsistent c → IsConsistent (mark now c)
mark-IsConsistent now c h = ground arith

pub delivered-IsConsistent :
    (now : ℕ) (device_id : String) (m : Bool) (grace : Option ℕ) (c : Command)
    → IsConsistent c
    → IsConsistent (delivered now device_id m grace c)
delivered-IsConsistent now device_id m grace c h =
    if_cases IsConsistent (m && is_deliverable now device_id grace c) (mark now c) c
      (mark-IsConsistent now c h) h

pub reported-IsConsistent :
    (now : ℕ) (r : Report) (c : Command)
    → is_result_status r.status ≡ true
    → IsConsistent c
    → IsConsistent (reported now r c)
reported-IsConsistent now r c a h = ground arith

pub expire-IsConsistent : (now : ℕ) (c : Command) → IsConsistent c → IsConsistent (expire now c)
expire-IsConsistent now c h = ground arith

pub put-AllConsistent :
    (k : String) (c : Command) (t : Table Command)
    → IsConsistent c
    → AllConsistent t
    → AllConsistent (put k c t)
put-AllConsistent k c t h a j d e = ground (arith, get-put k j c t, a j d)

pub update-AllConsistent :
    (f : String → Command → Command) (t : Table Command)
    → ((k : String) (c : Command) → IsConsistent c → IsConsistent (f k c))
    → AllConsistent t
    → AllConsistent (update f t)
update-AllConsistent f t keep a j d e = elim (Option-cases (get j t)) [
  | inl missing ↦ absurd (ground (arith, missing, get-update f j t))
  | inr (c, found) ↦ subst IsConsistent (same c found) (keep j c (a j c found))
]
  where
    same : (c : Command) → get j t ≡ some c → f j c ≡ d
    same c found = ground (arith, found, get-update f j t)
