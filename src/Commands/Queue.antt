-- ===== src/Commands/Queue.antt =====
-- Queueing: `enqueue_for_device` and `enqueue_for_group` of app/services/commands.py. The clock and
-- the fresh ids that `new_id` mints are arguments; a call reads the clock once.
pub mod Single
pub mod Rows
pub mod Group
use rebooter_droids.Base.{
  ℕ, zero, suc, ◌+◌, ◌-◌, String, Bool, true, false, not, ◌&&◌, Option, none, some, List, [], ◌∷◌,
  ◌++◌, ◌==◌, nat_eq, seconds, if◌then◌else◌,
}
use rebooter_droids.Base.Result.{Result, ok, err, ◌>>=◌, ◌>>◌, require}
use rebooter_droids.Base.Table.{get, put}
use rebooter_droids.Base.Json.{Fields, ℤ, pos, negsuc}
use rebooter_droids.Commands.Types.{
  CommandType, is_allowed, is_power, is_power_on, pending, Device, Command, Membership, Store,
  Error, QueuedEvent, unsupported_type, lookup_error, device_locked, default_ttl_seconds,
}
use rebooter_droids.Commands.Payload.{validate_payload}

-- The arguments of a call.
pub record Request : Type 0 where
  pub cmd_type : CommandType
  pub payload : Option Fields
  pub issued_by_user_id : Option String
  pub ttl_seconds : Option ℤ
  pub override_lockout : Bool
  pub set_hold_off : Bool

-- `ttl_seconds or DEFAULT_TTL_SECONDS`
abbrev pub ttl : Option ℤ → ℤ
ttl none = pos default_ttl_seconds
ttl (some (pos zero)) = pos default_ttl_seconds
ttl (some (pos (suc n))) = pos (suc n)
ttl (some (negsuc n)) = negsuc n

-- `now + timedelta(seconds=…)`. A negative lifetime is taken as it is; that an instant before the
-- year 1 or after 9999 raises an OverflowError is left out.
abbrev pub expiry : ℕ → ℤ → ℕ
expiry now (pos n) = now + seconds n
expiry now (negsuc n) = now - seconds (suc n)

abbrev pub new_command : ℕ → String → Option String → Fields → Request → Command
new_command now device_id group_id payload r = record {
  device_id = device_id;
  group_id = group_id;
  issued_by_user_id = r.issued_by_user_id;
  type = r.cmd_type;
  payload = payload;
  status = pending;
  created_at = now;
  expires_at = expiry now (ttl r.ttl_seconds);
  delivered_at = none;
  ack_received_at = none;
  completed_at = none;
}

-- `cmd_type in _POWER_TYPES and target.is_protected and not override_lockout`
abbrev pub is_locked : Request → Device → Bool
is_locked r target = is_power r.cmd_type && target.is_protected && not r.override_lockout

-- The flag after the call: set on request, else cleared by a command that turns the relay on.
abbrev pub hold_off : Request → Device → Device
hold_off r target =
    if r.set_hold_off
    then record target { is_held_off = true }
    else if is_power_on r.cmd_type && target.is_held_off
    then record target { is_held_off = false }
    else target

abbrev pub or_lookup_error : Option Device → String → Result Error Device
or_lookup_error none device_id = err (lookup_error device_id)
or_lookup_error (some target) device_id = ok target

abbrev queued_event : ℕ → String → String → Device → Command → QueuedEvent
queued_event now id device_id target cmd = record {
  command_id = id;
  device_id = device_id;
  device_local_ip = target.local_ip;
  type = cmd.type;
  payload = cmd.payload;
  created_at = now;
}

-- The transaction of `enqueue_for_device`, and the publication after it.
abbrev commit : ℕ → String → String → Command → Device → Device → Store → Store
commit now id device_id cmd target held s = record s {
  devices = put device_id held s.devices;
  commands = put id cmd s.commands;
  published = s.published ++ queued_event now id device_id target cmd ∷ [];
}

-- The command that is queued under the id `id`, and the tables after the call.
unfoldable pub enqueue_for_device :
    ℕ → String → String → Option String → Request → Store → Result Error (Command × Store)
enqueue_for_device now id device_id group_id r s = do
  require (is_allowed r.cmd_type) (unsupported_type r.cmd_type)
  payload ← validate_payload r.cmd_type r.payload
  target ← or_lookup_error (get device_id s.devices) device_id
  require (not (is_locked r target)) (device_locked device_id)
  let cmd = new_command now device_id group_id payload r
  ok (cmd, commit now id device_id cmd target (hold_off r target) s)

-- `SELECT device_id FROM group_memberships WHERE group_id = …`
unfoldable pub members : String → List Membership → List String
members gid [] = []
members gid (m ∷ rest) =
    let others = members gid rest in if m.group_id == gid then m.device_id ∷ others else others

-- The tables, the ids and commands created and the devices skipped so far.
pub record FanOut : Type 0 where
  pub store : Store
  pub created : List (String × Command)
  pub skipped : List String

-- One round of the loop of `enqueue_for_group`, on the row that `session.get` found: a device that
-- is gone is passed over.
unfoldable pub fan_out_to :
    ℕ → String → String → Fields → Request → String → FanOut → Option Device → FanOut
fan_out_to now id group_id payload r device_id f none = f
fan_out_to now id group_id payload r device_id f (some target) =
    if is_locked r target
    then record f { skipped = f.skipped ++ device_id ∷ [] }
    else let cmd = new_command now device_id (some group_id) payload r in
      record f {
        store = record (f.store) {
          devices = put device_id (hold_off r target) f.store.devices;
          commands = put id cmd f.store.commands;
        };
        created = f.created ++ (id, cmd) ∷ [];
      }

unfoldable pub fan_out_one : ℕ → String → String → Fields → Request → String → FanOut → FanOut
unfolding fan_out_to
fan_out_one now id group_id payload r device_id f =
    fan_out_to now id group_id payload r device_id f (get device_id f.store.devices)

-- The loop; round n draws the n-th of the fresh ids.
unfoldable pub fan_out :
    ℕ → (ℕ → String) → String → Fields → Request → ℕ → List String → FanOut → FanOut
fan_out now ids group_id payload r n [] f = f
fan_out now ids group_id payload r n (device_id ∷ rest) f =
    fan_out now ids group_id payload r (suc n) rest
      (fan_out_one now (ids n) group_id payload r device_id f)

-- `enqueue_for_group` has no `set_hold_off`.
unfoldable pub enqueue_for_group : ℕ → (ℕ → String) → String → Request → Store → Result Error FanOut
enqueue_for_group now ids group_id r s = do
  require (is_allowed r.cmd_type) (unsupported_type r.cmd_type)
  payload ← validate_payload r.cmd_type r.payload
  ok (
      fan_out now ids group_id payload (record r { set_hold_off = false }) 0
        (members group_id s.memberships) (record { store = s; created = []; skipped = [] }))
