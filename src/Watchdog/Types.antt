-- ===== src/Watchdog/Types.antt =====
-- The rows of the watchdog: app/models/watchdog.py, with the JSON columns as data.
use rebooter_droids.Base.{ℕ, String, Bool, true, false, Option, List}
use rebooter_droids.Base.Table.{Table}
use rebooter_droids.Base.Json.{Fields}
use rebooter_droids.Commands.Types.{Store, Error}

-- `RULE_STATUS_…`
pub data RuleStatus : Type 0 where
  armed firing cooled_down suspended disabled : RuleStatus

abbrev pub is_firing : RuleStatus → Bool
is_firing firing = true
is_firing _ = false

abbrev pub is_disabled : RuleStatus → Bool
is_disabled disabled = true
is_disabled _ = false

-- What a probe says.
pub data Outcome : Type 0 where
  success failure probe_error : Outcome
  other : String → Outcome

pub data Edge : Type 0 where
  active cleared : Edge

-- The texts that `last_outcome` holds: an outcome, `binding:<edge>`, `binding_settling:<outcome>`
-- and `maintenance_skip`.
pub data LastOutcome : Type 0 where
  probed : Outcome → LastOutcome
  binding_applied : Edge → LastOutcome
  binding_settling : Outcome → LastOutcome
  maintenance_skipped : LastOutcome

-- A rule's target; a missing id is the empty text.
pub data Target : Type 0 where
  device group : String → Target
  tag unknown : Target

-- An item of a scene: the stripped device id, empty where it is missing, the relay setting and the
-- config, if it is a dict.
pub record SceneItem : Type 0 where
  pub device_id : String
  pub relay : Option String
  pub config : Option Fields

pub data Scene : Type 0 where
  saved : String → Scene
  inline : List SceneItem → Scene

-- Leaf actions, by their `kind`; `none` where the action names no number of its own.
pub data Leaf : Type 0 where
  cycle : Option ℕ → Option ℕ → Leaf
  hold_off relay_on relay_off notify_only : Leaf
  apply_scene : Scene → Leaf
  unsupported : Option String → Leaf

pub data Action : Type 0 where
  leaf : Leaf → Action
  binding : Leaf → Leaf → Action

-- A maintenance window as `datetime.fromisoformat` reads it; `malformed` where that raises.
pub data Window : Type 0 where
  malformed : Window
  span : ℕ → ℕ → Window

-- A row of `watchdog_rules`; its id is the key of the table. `escalation` has the URL of a webhook
-- escalation.
pub record Rule : Type 0 where
  pub enabled : Bool
  pub status : RuleStatus
  pub failure_threshold : ℕ
  pub recovery_threshold : ℕ
  pub window_seconds : ℕ
  pub cooldown_seconds : ℕ
  pub target : Target
  pub action : Action
  pub escalation : Option String
  pub maintenance_windows : List Window
  pub failure_streak : ℕ
  pub recovery_streak : ℕ
  pub last_probed_at : Option ℕ
  pub last_action_at : Option ℕ
  pub last_outcome : Option LastOutcome

-- Why an action passed a device over.
pub data Skip : Type 0 where
  raised : Error → Skip
  missing_device_id : Skip

-- What an action reports back: the ids of the commands it queued or the devices it held, and the
-- devices it could not reach, each with the error.
pub data Fired : Type 0 where
  no_devices : Fired
  sent : List String → List (String × Skip) → Fired
  scene_applied : List String → List (String × Skip) → Fired
  scene_not_found : String → Fired
  notified : Fired
  unsupported_action : Option String → Fired

-- The rows of `watchdog_probe_events`.
pub data EventKind : Type 0 where
  outcome : Outcome → EventKind
  recovery maintenance_skip : EventKind
  cooldown_skip : ℕ → EventKind
  action_fired : Fired → EventKind
  binding_edge : Edge → Outcome → Fired → EventKind

pub record ProbeEvent : Type 0 where
  pub rule_id : String
  pub at : ℕ
  pub kind : EventKind

-- What leaves for the notification queue after an action fired.
pub data Notice : Type 0 where
  rule_fired : String → Notice
  escalation_webhook : String → String → Notice
  rule_escalated : String → Notice

-- The command tables, the scenes, how many fresh ids have been drawn, the event log and the notices.
pub record Hub : Type 0 where
  pub store : Store
  pub scenes : Table (List SceneItem)
  pub drawn : ℕ
  pub events : List ProbeEvent
  pub notices : List Notice
