-- ===== src/Watchdog/Actions.antt =====
-- Action dispatch: app/services/watchdog_runtime/_actions.py. Every command goes through
-- `enqueue_for_device`, in a transaction of its own, so what was queued before an error stays. The
-- section's parameters are the clock and the ids that `new_id` mints.
pub mod Guard
use rebooter_droids.Base.{
  ℕ, suc, String, Bool, true, false, not, Option, none, some, List, [], ◌∷◌, ◌++◌, ◌==◌, select,
  if◌then◌else◌,
}
use rebooter_droids.Base.Result.{Result, ok, err}
use rebooter_droids.Base.Table.{get}
use rebooter_droids.Base.Json.{Fields, end, field, int, pos, is_empty}
use rebooter_droids.Commands.Types.{CommandType, relay_cycle, Command, Membership, Store, Error}
use rebooter_droids.Commands.Types
use rebooter_droids.Commands.Queue.{Request, enqueue_for_device, members}
use rebooter_droids.Watchdog.Types.{
  Target, device, group, tag, unknown, SceneItem, Scene, saved, inline, Leaf, cycle, hold_off,
  relay_on, relay_off, notify_only, apply_scene, unsupported, Fired, no_devices, sent,
  scene_applied, scene_not_found, notified, unsupported_action, Skip, raised, missing_device_id,
  Hub,
}

-- `resolve_target_devices`
unfoldable pub resolve_target_devices : List Membership → Target → List String
resolve_target_devices ms (device id) = if id == "" then [] else id ∷ []
resolve_target_devices ms (group gid) =
    if gid == "" then [] else select (λ r. not (r == "")) (members gid ms)
resolve_target_devices ms tag = []
resolve_target_devices ms unknown = []

-- A request of the watchdog: no user, the default lifetime, and no override of the lockout.
abbrev pub request : CommandType → Option Fields → Bool → Request
request type payload set_hold_off = record {
  cmd_type = type;
  payload = payload;
  issued_by_user_id = none;
  ttl_seconds = none;
  override_lockout = false;
  set_hold_off = set_hold_off;
}

-- `int(action.get(key, default))`
abbrev or_default : ℕ → Option ℕ → ℕ
or_default d none = d
or_default d (some n) = n

abbrev pub cycle_payload : ℕ → ℕ → Fields
cycle_payload off holdoff =
    field "power_off_seconds" (int (pos off))
      (field "post_reboot_holdoff_seconds" (int (pos holdoff)) end)

-- The lists that an action loop builds.
pub record Sent : Type 0 where
  pub hub : Hub
  pub enqueued : List String
  pub skipped : List (String × Skip)

-- The command that the `relay` part of a scene item asks for, and the one of its `config` part.
abbrev item_relay : Option String → Option (CommandType × Option Fields)
item_relay none = none
item_relay (some r) =
    if r == "on"
    then some (Types.relay_on, none)
    else if r == "off"
    then some (Types.relay_off, none)
    else if r == "cycle"
    then some (relay_cycle, some (cycle_payload 5 180))
    else none

abbrev item_config : Option Fields → Option (CommandType × Option Fields)
item_config none = none
item_config (some c) = if is_empty c then none else some (Types.apply_config, some c)

module _ (now : ℕ) (ids : ℕ → String) where
  -- One call of `enqueue_for_device`: the id of the new command, or what was raised.
  abbrev enqueued : Hub → Result Error (Command × Store) → Result Error String × Hub
  enqueued h (ok (c, s)) = (ok (ids h.drawn), record h { store = s; drawn = suc h.drawn })
  enqueued h (err e) = (err e, h)

  unfoldable pub enqueue : Request → String → Hub → Result Error String × Hub
  enqueue r did h = enqueued h (enqueue_for_device now (ids h.drawn) did none r h.store)

  -- The body of a loop's `try`, and its `except`. A hold-off action lists the device, the others
  -- list the command.
  abbrev pub append_result : Bool → String → Sent → Result Error String × Hub → Sent
  append_result held did acc (ok id, h) = record acc {
    hub = h;
    enqueued = acc.enqueued ++ (if held then did else id) ∷ [];
  }
  append_result held did acc (err e, h) = record acc {
    hub = h;
    skipped = acc.skipped ++ (did, raised e) ∷ [];
  }

  unfoldable pub send_each : Bool → Request → List String → Sent → Sent
  send_each held r [] acc = acc
  send_each held r (did ∷ rest) acc =
      send_each held r rest (append_result held did acc (enqueue r did acc.hub))

  abbrev finish : Sent → Fired × Hub
  finish acc = (sent acc.enqueued acc.skipped, acc.hub)

  -- What `_fire_relay_set`, `_fire_cycle` and `_fire_hold_off` share: nothing to do for an empty
  -- target, else the loop.
  unfoldable pub send_to : Bool → Request → List String → Hub → Fired × Hub
  unfolding send_each
  send_to held r [] h = (no_devices, h)
  send_to held r (did ∷ rest) h =
      finish (send_each held r (did ∷ rest) (record { hub = h; enqueued = []; skipped = [] }))

  unfoldable pub fire_relay_set : Target → CommandType → Hub → Fired × Hub
  unfolding send_to resolve_target_devices
  fire_relay_set target type h =
      send_to false (request type none false) (resolve_target_devices h.store.memberships target) h

  unfoldable pub fire_cycle : Target → Option ℕ → Option ℕ → Hub → Fired × Hub
  unfolding send_to resolve_target_devices
  fire_cycle target off holdoff h =
      send_to false
        (request relay_cycle (some (cycle_payload (or_default 5 off) (or_default 180 holdoff)))
          false)
        (resolve_target_devices h.store.memberships target) h

  unfoldable pub fire_hold_off : Target → Hub → Fired × Hub
  unfolding send_to resolve_target_devices
  fire_hold_off target h =
      send_to true (request Types.relay_off none true)
        (resolve_target_devices h.store.memberships target) h

  abbrev attempt : Option (CommandType × Option Fields) → String → Hub → Result Error String × Hub
  attempt none did h = (ok did, h)
  attempt (some (type, payload)) did h = enqueue (request type payload false) did h

  -- The config is not sent where the relay command raised.
  abbrev then_config : SceneItem → Result Error String × Hub → Result Error String × Hub
  then_config item (ok id, h) = attempt (item_config item.config) item.device_id h
  then_config item (err e, h) = (err e, h)

  unfoldable pub apply_items : List SceneItem → Sent → Sent
  apply_items [] acc = acc
  apply_items (item ∷ rest) acc = apply_items rest (
      if item.device_id == ""
      then record acc { skipped = acc.skipped ++ ("", missing_device_id) ∷ [] }
      else append_result true item.device_id acc
          (then_config item (attempt (item_relay item.relay) item.device_id acc.hub)))

  abbrev finish_scene : Sent → Fired × Hub
  finish_scene acc = (scene_applied acc.enqueued acc.skipped, acc.hub)

  abbrev apply_all : List SceneItem → Hub → Fired × Hub
  apply_all items h =
      finish_scene (apply_items items (record { hub = h; enqueued = []; skipped = [] }))

  -- A saved scene by its id, else the items of the action.
  abbrev apply_saved : String → Option (List SceneItem) → Hub → Fired × Hub
  apply_saved id none h = (scene_not_found id, h)
  apply_saved id (some items) h = apply_all items h

  unfoldable pub fire_scene : Scene → Hub → Fired × Hub
  unfolding apply_items
  fire_scene (saved id) h = apply_saved id (get id h.scenes) h
  fire_scene (inline items) h = apply_all items h

  -- `_dispatch_one`; no branch raises, so `_fire_action` and `apply_binding_action`, which wrap it
  -- in a `try`, do what it does.
  unfoldable pub dispatch_one : Target → Leaf → Hub → Fired × Hub
  unfolding fire_cycle fire_hold_off fire_relay_set fire_scene
  dispatch_one target (cycle off holdoff) h = fire_cycle target off holdoff h
  dispatch_one target hold_off h = fire_hold_off target h
  dispatch_one target relay_on h = fire_relay_set target Types.relay_on h
  dispatch_one target relay_off h = fire_relay_set target Types.relay_off h
  dispatch_one target (apply_scene scene) h = fire_scene scene h
  dispatch_one target notify_only h = (notified, h)
  dispatch_one target (unsupported kind) h = (unsupported_action kind, h)
