-- ===== src/Enrollment/Consume.antt =====
-- `consume_enrollment_token` of app/services/enrollment.py: its transaction. The lock on the token's
-- row makes two redemptions follow one another, so each is one step. The announcement and the
-- configuration that are pushed afterwards are best effort, in transactions of their own, and not
-- part of it. The id of a new credential is no row's yet.
pub mod Calls
use rebooter_droids.Base.{
  ℕ, String, Bool, true, false, not, ◌&&◌, ◌||◌, Option, none, some, List, [], ◌∷◌, ◌++◌, ◌==◌, leb,
  is_some, if◌then◌else◌,
}
use rebooter_droids.Base.Json.{Json, obj, end, Fields, get_field, truthy, codes_eq}
use rebooter_droids.Base.Result.{Result, ok, err, ◌>>=◌, ◌>>◌, require}
use rebooter_droids.Base.Text.{is_nil}
use rebooter_droids.Base.Table.{Table, get, put}
use rebooter_droids.Enrollment.Types.{
  EnrollmentToken, Device, Credential, State, is_active, find_token,
}
use rebooter_droids.Enrollment.Payload.{
  EnrollmentError, enrollment_invalid, enrollment_consumed, enrollment_expired, device_mismatch,
  device_already_registered, no_default_site, taken_id, validate, text_field, column_field,
  normal_mac, looks_like_qa,
}

-- What a redemption is given: the hashes of the token and of the new secret, the new ids, the time,
-- and the site that `resolve_default_site_id` answers, if it answers.
pub record Redemption : Type 0 where
  pub token_hash : String
  pub secret_hash : String
  pub device_id : String
  pub credential_id : String
  pub now : ℕ
  pub default_site : Option String
  pub payload : Fields

abbrev pub or_text : Option String → Option String → Option String
or_text (some s) later = some s
or_text none later = later

abbrev pub text_or_empty : Option String → String
text_or_empty none = ""
text_or_empty (some s) = s

-- A text that is not empty.
abbrev pub non_empty : Option String → Option String
non_empty none = none
non_empty (some s) = if s == "" then none else some s

-- `payload.get("display_name") or et.display_name_hint or ""`
unfoldable pub resolved_name : EnrollmentToken → Fields → String
resolved_name et p = text_or_empty (or_text (text_field "display_name" p) et.display_name_hint)

abbrev pub is_true : Option Json → Bool
is_true none = false
is_true (some v) = truthy v

unfoldable pub is_qa : EnrollmentToken → Fields → Bool
is_qa et p =
    is_true (get_field "qa_fixture" p)
    || looks_like_qa (some (resolved_name et p) ∷ et.display_name_hint ∷ et.note ∷ [])

-- `payload.get("capabilities") or …`
abbrev pub capabilities_or : Json → Option Json → Json
capabilities_or old none = old
capabilities_or old (some v) = if truthy v then v else old

-- `device.capabilities or {}`
abbrev pub or_empty_object : Json → Json
or_empty_object v = if truthy v then v else obj end

abbrev pub reported_mac : Fields → List ℕ
reported_mac p = normal_mac (text_field "mac_address" p)

-- The facts that a reflashed device sends.
unfoldable pub rebound : ℕ → Fields → Device → Device
rebound now p d = record d {
  firmware_version = or_text (text_field "firmware_version" p) d.firmware_version;
  hardware_revision = or_text (text_field "hardware_revision" p) d.hardware_revision;
  local_ip = or_text (text_field "local_ip" p) d.local_ip;
  mac_address =
      if not (is_nil (reported_mac p)) && is_nil (normal_mac d.mac_address)
      then column_field "mac_address" p
      else d.mac_address;
  registration_state = "active";
  capabilities = capabilities_or (or_empty_object d.capabilities) (get_field "capabilities" p);
  last_heartbeat_at = none;
  updated_at = now;
}

-- `DELETE FROM device_credentials WHERE device_id = …`
unfoldable pub delete_credentials : String → Table Credential → Table Credential
delete_credentials device_id [] = []
delete_credentials device_id ((id, c) ∷ rest) =
    let others = delete_credentials device_id rest in
    if c.device_id == device_id then others else (id, c) ∷ others

abbrev pub new_credential : String → String → Credential
new_credential device_id secret_hash = record {
  device_id = device_id;
  token_hash = secret_hash;
  revoked = false;
  last_used_at = none;
}

-- `incoming_mac and existing_mac and incoming_mac != existing_mac`
abbrev pub macs_differ : List ℕ → List ℕ → Bool
macs_differ incoming existing =
    not (is_nil incoming) && not (is_nil existing) && not (codes_eq incoming existing)

-- The branch of a restore, on the target device.
abbrev pub rebind_found :
    Redemption → String → State → Option Device → Result EnrollmentError (String × State)
rebind_found r target st none = err enrollment_invalid
rebind_found r target st (some d) = do
  require (not (d.registration_state == "decommissioned")) enrollment_invalid
  require (not (macs_differ (reported_mac r.payload) (normal_mac d.mac_address))) device_mismatch
  ok (
    target,
    record st {
      devices = put target (rebound r.now r.payload d) st.devices;
      credentials =
          delete_credentials target st.credentials
          ++ (r.credential_id, new_credential target r.secret_hash) ∷ [];
    },
  )

unfoldable pub rebind : Redemption → String → State → Result EnrollmentError (String × State)
rebind r target st = rebind_found r target st (get target st.devices)

-- `Device.registration_state == "active"`, and the same MAC address
abbrev pub has_mac : List ℕ → Device → Bool
has_mac mac d = is_active d && is_some d.mac_address && codes_eq (normal_mac d.mac_address) mac

unfoldable pub any_with_mac : List ℕ → Table Device → Bool
any_with_mac mac [] = false
any_with_mac mac ((id, d) ∷ rest) = has_mac mac d || any_with_mac mac rest

unfoldable pub new_device : Redemption → EnrollmentToken → String → Device
new_device r et site = record {
  display_name = resolved_name et r.payload;
  hardware_model = column_field "hardware_model" r.payload;
  hardware_revision = column_field "hardware_revision" r.payload;
  firmware_version = column_field "firmware_version" r.payload;
  mac_address = column_field "mac_address" r.payload;
  serial_number = column_field "serial_number" r.payload;
  local_ip = column_field "local_ip" r.payload;
  site_id = some site;
  registration_state = "active";
  capabilities = capabilities_or (obj end) (get_field "capabilities" r.payload);
  last_heartbeat_at = none;
  last_seen_at = none;
  updated_at = r.now;
  is_qa_fixture = is_qa et r.payload;
}

-- The end of a fresh adoption, on `et.site_id or resolve_default_site_id(session)`.
abbrev pub adopt_at :
    Redemption → EnrollmentToken → State → Option String → Result EnrollmentError (String × State)
adopt_at r et st none = err no_default_site
adopt_at r et st (some site) =
    require (not (is_some (get r.device_id st.devices))) taken_id
    >> ok (
      r.device_id,
      record st {
        devices = st.devices ++ (r.device_id, new_device r et site) ∷ [];
        credentials =
            st.credentials ++ (r.credential_id, new_credential r.device_id r.secret_hash) ∷ [];
      },
    )

-- The branch of a fresh adoption.
unfoldable pub adopt :
    Redemption → EnrollmentToken → State → Result EnrollmentError (String × State)
adopt r et st = do
  require
      (is_nil (reported_mac r.payload) || not (any_with_mac (reported_mac r.payload) st.devices))
      device_already_registered
  adopt_at r et st (or_text (non_empty et.site_id) r.default_site)

abbrev pub register :
    Redemption → EnrollmentToken → State → Option String → Result EnrollmentError (String × State)
register r et st (some target) = rebind r target st
register r et st none = adopt r et st

abbrev pub consumed_token : ℕ → String → EnrollmentToken → EnrollmentToken
consumed_token now device_id et = record et {
  consumed_at = some now;
  consumed_by_device_id = some device_id;
}

-- The transaction, on the token that the hash finds; the result is the id of the device.
abbrev pub redeem :
    Redemption → State → Option (String × EnrollmentToken) → Result EnrollmentError (String × State)
redeem r st none = err enrollment_invalid
redeem r st (some (id, et)) = do
  require (not (is_some et.consumed_at)) enrollment_consumed
  require (not (leb et.expires_at r.now)) enrollment_expired
  (device_id, st') ← register r et st (non_empty et.target_device_id)
  ok (device_id, record st' { tokens = put id (consumed_token r.now device_id et) st'.tokens })

unfoldable pub consume : Redemption → State → Result EnrollmentError (String × State)
consume r st = do validate r.payload; redeem r st (find_token r.token_hash st.tokens)
