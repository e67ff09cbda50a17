-- ===== src/Commands/Queue/Single.antt =====
-- What `enqueue_for_device` does to the tables.
use rebooter_droids.Base.{
  ℕ, String, true, false, Option, Option-cases, inl, inr, some, none, ◌≡◌, arith, ◌==◌,
  if◌then◌else◌, Bool-cases, refl, subst, ap, Bool, ◌&&◌, ◌||◌, not,
}
use rebooter_droids.Base.Result.{ok}
use rebooter_droids.Base.Table.{get, get-put}
use rebooter_droids.Commands.Types.{
  is_allowed, is_power, is_power_on, pending, Device, Command, Store,
}
use rebooter_droids.Commands.Payload.{validate_payload}
use rebooter_droids.Commands.Queue.{Request, hold_off, expiry, ttl, enqueue_for_device}

-- The device's row afterwards: held off exactly if the request asks for it, or it was before and
-- the command does not turn the relay on.
abbrev pub held_row : Request → Device → Device
held_row r target = record {
  is_protected = target.is_protected;
  is_held_off = r.set_hold_off || (target.is_held_off && not (is_power_on r.cmd_type));
  local_ip = target.local_ip;
}

hold_off-held_row : (r : Request) (target : Device) → hold_off r target ≡ held_row r target
hold_off-held_row r target = elim (Bool-cases r.set_hold_off) [
  | inl asked ↦ rw asked refl
  | inr e ↦ elim (Bool-cases (is_power_on r.cmd_type)) [
    | inl on ↦ rw (e, on) (cleared target target.is_held_off)
    | inr off ↦ rw (e, off) (ap (λ h. record target { is_held_off = h }) (kept target.is_held_off))
  ]
]
  where
    cleared :
        (d : Device) (h : Bool)
        → (if h then record d { is_held_off = false } else record d { is_held_off = h })
          ≡ record d { is_held_off = h && false }
    cleared d true = refl
    cleared d false = refl

    kept : (h : Bool) → h ≡ (h && true)
    kept true = refl
    kept false = refl

-- What a call that returns has done to the tables.
pub record Queued (now : ℕ) (id device_id : String) (group_id : Option String) (r : Request)
    (s : Store) (c : Command) (s' : Store) : Type 0 where
  pub target : Device
  pub allowed : is_allowed r.cmd_type ≡ true
  pub valid : validate_payload r.cmd_type r.payload ≡ ok c.payload
  pub found : get device_id s.devices ≡ some target
  pub unlocked : (is_power r.cmd_type && target.is_protected && not r.override_lockout) ≡ false
  pub devices :
      (j : String)
      → get j s'.devices ≡ (if device_id == j then some (held_row r target) else get j s.devices)
  pub commands : (j : String) → get j s'.commands ≡ (if id == j then some c else get j s.commands)
  pub queued : c ≡ (record {
    device_id = device_id;
    group_id = group_id;
    issued_by_user_id = r.issued_by_user_id;
    type = r.cmd_type;
    payload = c.payload;
    status = pending;
    created_at = now;
    expires_at = expiry now (ttl r.ttl_seconds);
    delivered_at = none;
    ack_received_at = none;
    completed_at = none;
  })
  pub same_results : s'.results ≡ s.results

module _ (now : ℕ) (id device_id : String) (group_id : Option String) (r : Request)
    (s : Store) where
  pub enqueue-Queued :
      {c : Command} {s' : Store}
      → enqueue_for_device now id device_id group_id r s ≡ ok (c, s')
      → Queued now id device_id group_id r s c s'
  unfolding enqueue_for_device
  enqueue-Queued {c} {s'} h = record {
    target = (find h).0;
    allowed = ground arith;
    valid = ground arith;
    found = (find h).1;
    unlocked = ground (arith, (find h).1);
    devices = λ j.
        subst
          (λ (d : Device). get j s'.devices ≡ (if device_id == j then some d else get j s.devices))
          (hold_off-held_row r (find h).0)
          (ground (arith, (find h).1, get-put device_id j (hold_off r (find h).0) s.devices));
    commands = λ j. ground (arith, get-put id j c s.commands);
    queued = ground arith;
    same_results = ground arith;
  }
    where
      find :
          enqueue_for_device now id device_id group_id r s ≡ ok (c, s')
          → (d : Device) × (get device_id s.devices ≡ some d)
      find e = elim (Option-cases (get device_id s.devices)) [
        | inl missing ↦ absurd (ground arith)
        | inr found ↦ found
      ]
