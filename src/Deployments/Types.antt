-- ===== src/Deployments/Types.antt =====
-- The rows of app/models/firmware.py, and what a deployment reads of the devices and their groups.
use rebooter_droids.Base.{ℕ, String, Bool, true, false, ◌&&◌, Option, List, ◌==◌}
use rebooter_droids.Base.Table.{Table}

-- `ASSIGNMENT_STATES`
pub data AssignmentState : Type 0 where
  pending delivered completed failed superseded : AssignmentState

pub record FirmwareRelease : Type 0 where
  pub version : String
  pub channel : String
  pub download_url : String
  pub sha256 : String

pub record FirmwareDeployment : Type 0 where
  pub release_id : String
  pub target_type : String
  pub target_id : Option String
  pub channel : String
  pub force : Bool
  pub issued_by_user_id : Option String
  pub created_at : ℕ

-- The reported version is kept as its code points.
pub record DeploymentAssignment : Type 0 where
  pub deployment_id : String
  pub release_id : String
  pub device_id : String
  pub state : AssignmentState
  pub last_reported_version : Option (List ℕ)
  pub error_message : Option String
  pub created_at : ℕ
  pub updated_at : ℕ

pub record State : Type 0 where
  pub releases : Table FirmwareRelease
  pub deployments : Table FirmwareDeployment
  pub assignments : Table DeploymentAssignment

-- The devices with their sites, and the memberships as pairs of a group and a device.
pub record Fleet : Type 0 where
  pub devices : Table (Option String)
  pub memberships : List (String × String)

abbrev pub is_pending : AssignmentState → Bool
is_pending pending = true
is_pending _ = false

-- `state.in_(("pending", "delivered"))`
abbrev pub is_active : AssignmentState → Bool
is_active pending = true
is_active delivered = true
is_active _ = false

abbrev pub is_completed : AssignmentState → Bool
is_completed completed = true
is_completed _ = false

abbrev pub active_for : String → DeploymentAssignment → Bool
active_for d a = a.device_id == d && is_active a.state

abbrev pub pending_for : String → DeploymentAssignment → Bool
pending_for d a = a.device_id == d && is_pending a.state
