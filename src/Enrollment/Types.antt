-- ===== src/Enrollment/Types.antt =====
-- The rows that enrollment reads and writes: `EnrollmentToken`, `DeviceCredential` and the columns
-- of `Device` in app/models/devices.py that registration sets.
use rebooter_droids.Base.{ℕ, String, Bool, Option, none, some, [], ◌∷◌, ◌==◌, if◌then◌else◌}
use rebooter_droids.Base.Json.{Json}
use rebooter_droids.Base.Table.{Table}

pub record EnrollmentToken : Type 0 where
  pub token_hash : String
  pub issued_by_user_id : Option String
  pub site_id : Option String
  pub organization_id : Option String
  pub display_name_hint : Option String
  pub note : Option String
  pub consumed_at : Option ℕ
  pub consumed_by_device_id : Option String
  pub expires_at : ℕ
  pub target_device_id : Option String

pub record Device : Type 0 where
  pub display_name : String
  pub hardware_model : Option String
  pub hardware_revision : Option String
  pub firmware_version : Option String
  pub mac_address : Option String
  pub serial_number : Option String
  pub local_ip : Option String
  pub site_id : Option String
  pub registration_state : String
  pub capabilities : Json
  pub last_heartbeat_at : Option ℕ
  pub last_seen_at : Option ℕ
  pub updated_at : ℕ
  pub is_qa_fixture : Bool

pub record Credential : Type 0 where
  pub device_id : String
  pub token_hash : String
  pub revoked : Bool
  pub last_used_at : Option ℕ

pub record State : Type 0 where
  pub tokens : Table EnrollmentToken
  pub devices : Table Device
  pub credentials : Table Credential
  pub site_orgs : Table String

-- `registration_state == "active"`
abbrev pub is_active : Device → Bool
is_active d = d.registration_state == "active"

-- `select(EnrollmentToken).where(EnrollmentToken.token_hash == token_hash)`
unfoldable pub find_token : String → Table EnrollmentToken → Option (String × EnrollmentToken)
find_token hash [] = none
find_token hash ((id, et) ∷ rest) =
    let later = find_token hash rest in if et.token_hash == hash then some (id, et) else later
