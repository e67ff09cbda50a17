-- ===== src/Examples/Commands.antt =====
-- The command queue on two devices of one group, `a` open and `b` protected.
use rebooter_droids.Base.{
  inl, ◌<◌, zero, suc, ℕ, String, true, false, Option, none, some, ◌≡◌, ◌↔◌, refl, arith, eq_iff,
  List, [], ◌∷◌, select, In,
}
use rebooter_droids.Base.Result.{ok, err}
use rebooter_droids.Base.Table.{get, put}
use rebooter_droids.Base.Table.Keyed.{IsKeyed}
use rebooter_droids.Base.Json.{Fields, end, field, int, str, pos, upper}
use rebooter_droids.Commands.Types.{
  relay_on, running, CommandResult, lan_scan, lan_proxy, completed, Device, Command, Store,
  device_locked, invalid_payload,
}
use rebooter_droids.Commands.Payload.{validate_payload}
use rebooter_droids.Commands.Queue.{
  Request, FanOut, fan_out, fan_out_one, new_command, enqueue_for_device, enqueue_for_group,
  members,
}
use rebooter_droids.Commands.Queue.Rows.{Standing}
use rebooter_droids.Commands.Queue.Group.{targets, locked, unlocked, enqueue_for_group-accounts}
use rebooter_droids.Commands.Lifecycle.{
  selected, sort_rows, insert_row, Report, list_pending_for_device, record_result, reported,
  result_row,
}
use rebooter_droids.Commands.Lifecycle.Invariant.{AllConsistent}
use rebooter_droids.Commands.Lifecycle.Delivery.{
  IsDue, handed, list_pending-In_iff, grace-no_redelivery,
}
use rebooter_droids.Commands.Lifecycle.Reports.{record_result-revives}
use rebooter_droids.Commands.Calls.{Call, enqueues, lists, cancels, reports, expires, run}
use rebooter_droids.Commands.Consistency.{run-AllConsistent}

abbrev device_a : Device
device_a = record { is_protected = false; is_held_off = true; local_ip = none }

abbrev device_b : Device
device_b = record { is_protected = true; is_held_off = false; local_ip = some "10.0.0.2" }

abbrev store : Store
store = record {
  devices = ("a", device_a) ∷ ("b", device_b) ∷ [];
  memberships =
      record { group_id = "g"; device_id = "a" } ∷ record { group_id = "g"; device_id = "b" } ∷ [];
  commands = [];
  results = [];
  published = [];
}

abbrev turn_on : Request
turn_on = record {
  cmd_type = relay_on;
  payload = none;
  issued_by_user_id = none;
  ttl_seconds = none;
  override_lockout = false;
  set_hold_off = false;
}

-- Turning `b` on is refused.
enqueue_locked : enqueue_for_device 0 "c" "b" none turn_on store ≡ err (device_locked "b")
unfolding enqueue_for_device validate_payload get
enqueue_locked = refl

abbrev command_a : Command
command_a = new_command 0 "a" none end turn_on

-- Turning `a` on clears its hold-off flag.
abbrev store_a : Store
store_a = record store {
  devices = ("a", record device_a { is_held_off = false }) ∷ ("b", device_b) ∷ [];
  commands = ("c", command_a) ∷ [];
  published =
      record {
        command_id = "c";
        device_id = "a";
        device_local_ip = none;
        type = relay_on;
        payload = end;
        created_at = 0;
      }
      ∷ [];
}

ids : ℕ → String
ids zero = "c0"
ids (suc n) = "c1"

-- In the group, `a` gets a command and `b` is skipped.
abbrev fanned : FanOut
fanned = record {
  store = record store {
    devices = ("a", record device_a { is_held_off = false }) ∷ ("b", device_b) ∷ [];
    commands = ("c0", new_command 0 "a" (some "g") end turn_on) ∷ [];
  };
  created = ("c0", new_command 0 "a" (some "g") end turn_on) ∷ [];
  skipped = "b" ∷ [];
}

ids_distinct : (m n : ℕ) → m < 2 → n < 2 → ids m ≡ ids n → m ≡ n
unfolding ids
ids_distinct zero zero a b e = refl
ids_distinct zero (suc n) a b e = absurd (ground (arith, e, eq_iff "c0" "c1"))
ids_distinct (suc m) zero a b e = absurd (ground (arith, e, eq_iff "c0" "c1"))
ids_distinct (suc m) (suc n) a b e = omega (arith, a, b)

enqueue_for_group-accounts_example :
    ((targets fanned.created ≡ select (unlocked turn_on store) (members "g" store.memberships))
      × (fanned.skipped ≡ select (locked turn_on store) (members "g" store.memberships)))
    × ((row : String × Command) → In row fanned.created → Standing "g" relay_on fanned.store row)
unfolding enqueue_for_group members fan_out fan_out_one validate_payload get put ids
enqueue_for_group-accounts_example =
    enqueue_for_group-accounts 0 ids "g" turn_on store ids_distinct refl

abbrev scan : Option Fields
scan = some (field "start" (int (pos 10)) (field "end" (int (pos 20)) end))

abbrev scanned : Fields
scanned = field "start" (int (pos 10)) (field "end" (int (pos 20)) end)

proxy_get :
    validate_payload lan_proxy (
      some (
        field "ip"
          (str "10.0.0.2")
          (field "path" (str "/status") (field "method" (str "poſt") end))))
    ≡ ok (
        field "ip"
          (str "10.0.0.2")
          (field "path" (str "/status") (field "method" (str "POST") end)))
unfolding validate_payload upper
proxy_get = refl

scan_refused :
    validate_payload lan_scan (some (field "start" (int (pos 20)) (field "end" (int (pos 10)) end)))
    ≡ err invalid_payload
unfolding validate_payload
scan_refused = refl

abbrev done : Report
done = record { status = completed; message = none; result = none; completed_at = none }

-- The heartbeat hands `c` off at time 5, and a poll with a grace of 30 seconds at time 7 does not.
abbrev calls : List (ℕ × Call)
calls =
    (0, enqueues "c" "a" none turn_on)
    ∷ (5, lists "a" true none)
    ∷ (6, cancels "c")
    ∷ (9, reports "a" "c" done)
    ∷ (10, expires)
    ∷ []

run-AllConsistent_example : AllConsistent (run store calls).commands
unfolding get
run-AllConsistent_example = run-AllConsistent store calls (λ k c e. cc)

a-IsKeyed : IsKeyed store_a.commands
unfolding get
a-IsKeyed = (refl, tt)

list_pending-In_iff_example :
    In ("c", handed true 5 command_a) (list_pending_for_device 5 "a" true none store_a).0 ↔ (
      (c : Command) × (get "c" store_a.commands ≡ some c)
      × IsDue 5 "a" none c
      × (handed true 5 command_a ≡ handed true 5 c))
list_pending-In_iff_example =
    list_pending-In_iff 5 "a" true none store_a "c" (handed true 5 command_a) a-IsKeyed

listed_first :
    In ("c", handed true 5 command_a) (list_pending_for_device 5 "a" true (some 30) store_a).0
unfolding list_pending_for_device selected sort_rows insert_row
listed_first = inl refl

grace-no_redelivery_example :
    ¬ In
      ("c", command_a)
      (list_pending_for_device 7 "a" true
        (some 30)
        (list_pending_for_device 5 "a" true (some 30) store_a).1).0
unfolding get
grace-no_redelivery_example =
    grace-no_redelivery 5 7 30 (some 30) "a" true store_a "c" command_a (handed true 5 command_a)
      command_a a-IsKeyed refl refl listed_first (omega arith)

abbrev done_a : Store
done_a = record store_a {
  commands = ("c", reported 9 done command_a) ∷ [];
  results = result_row 9 "a" "c" done ∷ [];
}

abbrev done_twice : Store
done_twice = record store_a {
  commands = ("c", reported 12 done (reported 9 done command_a)) ∷ [];
  results = result_row 9 "a" "c" done ∷ result_row 12 "a" "c" done ∷ [];
}

abbrev late : Report
late = record { status = running; message = none; result = none; completed_at = none }

done-IsKeyed : IsKeyed done_a.commands
unfolding get
done-IsKeyed = (refl, tt)

-- `c` has completed, and a late `running` report makes a poll deliver it again.
record_result-revives_example :
    (row : CommandResult) × (s' : Store) × (record_result 20 "a" "c" late done_a ≡ ok (row, s'))
    × In
        ("c", handed true 30 (reported 20 late (reported 9 done command_a)))
        (list_pending_for_device 30 "a" true none s').0
unfolding get
record_result-revives_example =
    record_result-revives 20 30 "a" "c" late true done_a (reported 9 done command_a) done-IsKeyed
      refl refl refl refl (omega arith)
