-- ===== src/Watchdog/Actions/Guard.antt =====
-- The lockout of protected devices, through every action of the watchdog.
use rebooter_droids.Base.{
  ℕ, String, Bool, true, false, Option, none, some, ◌≡◌, ◌⊎◌, inl, inr, refl, arith, eq_iff, ◌==◌,
  ◌∙◌, sym, subst, List, [], ◌∷◌, if◌then◌else◌, Bool-cases, Option-cases, if_cases, ◌++◌,
}
use rebooter_droids.Base.Result.{Result, ok, err, Result-cases}
use rebooter_droids.Base.Table.{get}
use rebooter_droids.Base.Json.{Fields}
use rebooter_droids.Commands.Types.{
  is_power, relay_cycle, CommandType, Device, Command, Store, Error,
}
use rebooter_droids.Commands.Queue.{Request, new_command, hold_off, enqueue_for_device}
use rebooter_droids.Commands.Queue.Single.{Queued, enqueue-Queued}
use rebooter_droids.Watchdog.Types.{
  Target, SceneItem, Scene, saved, inline, Leaf, cycle, relay_on, relay_off, notify_only,
  apply_scene, unsupported, missing_device_id, Fired, Hub,
}
use rebooter_droids.Watchdog.Types
use rebooter_droids.Commands
use rebooter_droids.Watchdog.Actions.{
  Sent, enqueue, append_result, send_each, send_to, apply_items, fire_scene, dispatch_one, request,
  resolve_target_devices, attempt, then_config, item_relay, item_config, cycle_payload, or_default,
}

-- Whether a device is protected, if it exists.
abbrev pub protection_of : Option Device → Option Bool
protection_of none = none
protection_of (some d) = some d.is_protected

abbrev pub protection : Store → String → Option Bool
protection s j = protection_of (get j s.devices)

-- From `s` to `s'` no device changed its protection, and each command that was not there before is
-- no power command or is for a device that is not protected.
pub record Guarded (s s' : Store) : Type 0 where
  pub same_protection : (j : String) → protection s' j ≡ protection s j
  pub new_commands :
      (k : String) (c : Command)
      → get k s'.commands ≡ some c
      → (get k s.commands ≡ some c)
        ⊎ (is_power c.type ≡ false)
        ⊎ (protection s c.device_id ≡ some false)

pub Guarded-refl : (s : Store) → Guarded s s
Guarded-refl s = record { same_protection = λ j. refl; new_commands = λ k c e. inl e }

pub Guarded-trans : {s s' s'' : Store} → Guarded s s' → Guarded s' s'' → Guarded s s''
Guarded-trans {s} {s'} {s''} g h = record {
  same_protection = λ j. h.same_protection j ∙ g.same_protection j;
  new_commands = λ k c e. elim (h.new_commands k c e) [
    | inl old ↦ g.new_commands k c old
    | inr (inl harmless) ↦ inr (inl harmless)
    | inr (inr open_to) ↦ inr (inr (sym (g.same_protection c.device_id) ∙ open_to))
  ];
}

protection-hold_off : (r : Request) (d : Device) → (hold_off r d).is_protected ≡ d.is_protected
protection-hold_off r d = ground arith

-- A request that does not override the lockout.
enqueue-Guarded :
    (now : ℕ) (id did : String) (r : Request) (s : Store) {c : Command} {s' : Store}
    → r.override_lockout ≡ false
    → enqueue_for_device now id did none r s ≡ ok (c, s')
    → Guarded s s'
enqueue-Guarded now id did r s {c} {s'} no_override e = record {
  same_protection =
      λ j. ground (arith, q.devices j, q.found, eq_iff did j, protection-hold_off r q.target);
  new_commands = λ k d found. elim (Bool-cases (id == k)) [
    | inl own ↦ inr (
        subst (λ (x : Command). (is_power x.type ≡ false) ⊎ (protection s x.device_id ≡ some false))
          (same k d own found) (ground (arith, q.unlocked, q.found)))
    | inr elsewhere ↦ inl (ground (arith, elsewhere, q.commands k, found))
  ];
}
  where
    q : Queued now id did none r s c s'
    q = enqueue-Queued now id did none r s e

    same :
        (k : String) (d : Command)
        → (id == k) ≡ true
        → get k s'.commands ≡ some d
        → new_command now did none c.payload r ≡ d
    same k d own found = ground (arith, own, q.commands k, found, q.queued)

module _ (now : ℕ) (ids : ℕ → String) where
  pub send-Guarded :
      (r : Request) (did : String) (h : Hub)
      → r.override_lockout ≡ false
      → Guarded h.store (enqueue now ids r did h).1.store
  unfolding enqueue
  send-Guarded r did h no_override =
      elim (Result-cases (enqueue_for_device now (ids h.drawn) did none r h.store)) [
        | inl ((c, s'), e) ↦ rw e (enqueue-Guarded now (ids h.drawn) did r h.store no_override e)
        | inr (bad, e) ↦ rw e (Guarded-refl h.store)
      ]

  store-append_result :
      (held : Bool) (did : String) (acc : Sent) (p : Result Error String × Hub)
      → (append_result now ids held did acc p).hub ≡ p.1
  store-append_result held did acc (ok id, h) = refl
  store-append_result held did acc (err e, h) = refl

  send_each-Guarded :
      (held : Bool) (r : Request) (dids : List String) (acc : Sent)
      → r.override_lockout ≡ false
      → Guarded acc.hub.store (send_each now ids held r dids acc).hub.store
  unfolding send_each
  send_each-Guarded held r [] acc n = Guarded-refl acc.hub.store
  send_each-Guarded held r (did ∷ rest) acc n =
      let p = enqueue now ids r did acc.hub in
      let acc' = append_result now ids held did acc p in
      Guarded-trans
        (subst (λ (h : Hub). Guarded acc.hub.store h.store)
          (sym (store-append_result held did acc p)) (send-Guarded r did acc.hub n))
        (send_each-Guarded held r rest acc' n)

  send_to-Guarded :
      (held : Bool) (r : Request) (dids : List String) (h : Hub)
      → r.override_lockout ≡ false
      → Guarded h.store (send_to now ids held r dids h).1.store
  unfolding send_to
  send_to-Guarded held r [] h n = Guarded-refl h.store
  send_to-Guarded held r (did ∷ rest) h n =
      unfold send_to in
      send_each-Guarded held r (did ∷ rest) (record { hub = h; enqueued = []; skipped = [] }) n

  attempt-Guarded :
      (o : Option (CommandType × Option Fields)) (did : String) (h : Hub)
      → Guarded h.store (attempt now ids o did h).1.store
  attempt-Guarded none did h = Guarded-refl h.store
  attempt-Guarded (some (type, payload)) did h =
      send-Guarded (request type payload false) did h refl

  then_config-Guarded :
      (item : SceneItem) (p : Result Error String × Hub)
      → Guarded p.1.store (then_config now ids item p).1.store
  then_config-Guarded item (ok id, h) = attempt-Guarded (item_config item.config) item.device_id h
  then_config-Guarded item (err e, h) = Guarded-refl h.store

  item-Guarded :
      (item : SceneItem) (acc : Sent)
      → let p = attempt now ids (item_relay item.relay) item.device_id acc.hub in
        Guarded acc.hub.store
          (append_result now ids true item.device_id acc (then_config now ids item p)).hub.store
  item-Guarded item acc =
      let p = attempt now ids (item_relay item.relay) item.device_id acc.hub in
      let q = then_config now ids item p in
      subst (λ (h : Hub). Guarded acc.hub.store h.store)
        (sym (store-append_result true item.device_id acc q))
        (Guarded-trans (attempt-Guarded (item_relay item.relay) item.device_id acc.hub)
          (then_config-Guarded item p))

  apply_items-Guarded :
      (items : List SceneItem) (acc : Sent)
      → Guarded acc.hub.store (apply_items now ids items acc).hub.store
  unfolding apply_items
  apply_items-Guarded [] acc = Guarded-refl acc.hub.store
  apply_items-Guarded (item ∷ rest) acc =
      let skip = record acc { skipped = acc.skipped ++ ("", missing_device_id) ∷ [] } in
      let p = attempt now ids (item_relay item.relay) item.device_id acc.hub in
      let sent = append_result now ids true item.device_id acc (then_config now ids item p) in
      Guarded-trans
        (if_cases (λ (a : Sent). Guarded acc.hub.store a.hub.store) (item.device_id == "") skip sent
          (Guarded-refl acc.hub.store) (item-Guarded item acc))
        (apply_items-Guarded rest (if item.device_id == "" then skip else sent))

  scene-Guarded : (scene : Scene) (h : Hub) → Guarded h.store (fire_scene now ids scene h).1.store
  unfolding fire_scene
  scene-Guarded (inline items) h =
      apply_items-Guarded items (record { hub = h; enqueued = []; skipped = [] })
  scene-Guarded (saved id) h = elim (Option-cases (get id h.scenes)) [
    | inl e ↦ rw e (Guarded-refl h.store)
    | inr (items, e) ↦
        rw e (apply_items-Guarded items (record { hub = h; enqueued = []; skipped = [] }))
  ]

  targets_of : Target → Hub → List String
  targets_of target h = resolve_target_devices h.store.memberships target

  -- Whatever its leaf action is and whatever it targets, a rule queues no power command for a
  -- protected device, and protects or unprotects none.
  pub dispatch_one-Guarded :
      (target : Target) (action : Leaf) (h : Hub)
      → Guarded h.store (dispatch_one now ids target action h).1.store
  unfolding dispatch_one targets_of
  dispatch_one-Guarded target (cycle off holdoff) h =
      send_to-Guarded false
        (request relay_cycle (some (cycle_payload (or_default 5 off) (or_default 180 holdoff)))
          false)
        (targets_of target h) h refl
  dispatch_one-Guarded target Types.hold_off h =
      send_to-Guarded true (request Commands.Types.relay_off none true) (targets_of target h) h refl
  dispatch_one-Guarded target relay_on h =
      send_to-Guarded false (request Commands.Types.relay_on none false) (targets_of target h) h
        refl
  dispatch_one-Guarded target relay_off h =
      send_to-Guarded false (request Commands.Types.relay_off none false) (targets_of target h) h
        refl
  dispatch_one-Guarded target (apply_scene scene) h = scene-Guarded scene h
  dispatch_one-Guarded target notify_only h = Guarded-refl h.store
  dispatch_one-Guarded target (unsupported kind) h = Guarded-refl h.store
