-- ===== src/Commands/Types.antt =====
-- The rows and constants of the command queue: app/models/commands.py, the columns of
-- app/models/devices.py that the queue reads, and the constants of app/services/commands.py.
use rebooter_droids.Base.{ℕ, String, Bool, true, false, Option, List}
use rebooter_droids.Base.Table.{Table}
use rebooter_droids.Base.Json.{Fields}

-- `ALLOWED_TYPES`; any other text is `unsupported`.
pub data CommandType : Type 0 where
  relay_on relay_off relay_toggle relay_cycle device_restart factory_reset : CommandType
  set_mode apply_config check_firmware start_firmware_update : CommandType
  lan_scan lan_proxy lan_ota_push : CommandType
  unsupported : String → CommandType

abbrev pub is_allowed : CommandType → Bool
is_allowed (unsupported _) = false
is_allowed _ = true

-- `_POWER_TYPES`
abbrev pub is_power : CommandType → Bool
is_power relay_on = true
is_power relay_off = true
is_power relay_toggle = true
is_power relay_cycle = true
is_power device_restart = true
is_power _ = false

-- `_POWER_ON_TYPES`
abbrev pub is_power_on : CommandType → Bool
is_power_on relay_on = true
is_power_on relay_toggle = true
is_power_on relay_cycle = true
is_power_on _ = false

-- `COMMAND_STATUSES`, the status of a cancelled command, and any other text.
pub data Status : Type 0 where
  pending accepted running completed failed expired cancelled : Status
  other : String → Status

-- `ALLOWED_RESULT_STATUSES`
abbrev pub is_result_status : Status → Bool
is_result_status accepted = true
is_result_status running = true
is_result_status completed = true
is_result_status failed = true
is_result_status expired = true
is_result_status _ = false

-- `status IN ('pending', 'accepted', 'running')`
abbrev pub is_active : Status → Bool
is_active pending = true
is_active accepted = true
is_active running = true
is_active _ = false

abbrev pub is_pending : Status → Bool
is_pending pending = true
is_pending _ = false

pub record Device : Type 0 where
  pub is_protected : Bool
  pub is_held_off : Bool
  pub local_ip : Option String

-- A row of `commands`; its id is the key of the table.
pub record Command : Type 0 where
  pub device_id : String
  pub group_id : Option String
  pub issued_by_user_id : Option String
  pub type : CommandType
  pub payload : Fields
  pub status : Status
  pub created_at : ℕ
  pub expires_at : ℕ
  pub delivered_at : Option ℕ
  pub ack_received_at : Option ℕ
  pub completed_at : Option ℕ

-- A row of `command_results`.
pub record CommandResult : Type 0 where
  pub command_id : String
  pub device_id : String
  pub status : Status
  pub message : Option String
  pub result : Fields
  pub completed_at : ℕ

pub record Membership : Type 0 where
  pub group_id : String
  pub device_id : String

-- What `enqueue_for_device` publishes on the event bus.
pub record QueuedEvent : Type 0 where
  pub command_id : String
  pub device_id : String
  pub device_local_ip : Option String
  pub type : CommandType
  pub payload : Fields
  pub created_at : ℕ

-- The tables that the queue works on, and the events published so far.
pub record Store : Type 0 where
  pub devices : Table Device
  pub memberships : List Membership
  pub commands : Table Command
  pub results : List CommandResult
  pub published : List QueuedEvent

-- What the queue's functions raise.
pub data Error : Type 0 where
  unsupported_type : CommandType → Error
  invalid_payload type_error attribute_error : Error
  lookup_error device_locked : String → Error
  unsupported_result_status : Status → Error

abbrev pub default_ttl_seconds : ℕ
default_ttl_seconds = 600
