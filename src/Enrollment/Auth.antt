-- ===== src/Enrollment/Auth.antt =====
-- `_resolve_device` of app/middleware/device_auth.py, on the hash of the bearer token.
pub mod RoundTrip
use rebooter_droids.Base.{
  ℕ, String, Bool, true, false, not, ◌&&◌, Option, none, some, List, [], ◌∷◌, ◌==◌, if◌then◌else◌,
}
use rebooter_droids.Base.Table.{Table, get, put}
use rebooter_droids.Enrollment.Types.{Device, Credential, State, is_active}

-- `select(DeviceCredential).where(…)`
unfoldable pub find_credential : String → Table Credential → Option (String × Credential)
find_credential hash [] = none
find_credential hash ((id, c) ∷ rest) =
    let later = find_credential hash rest in
    if c.token_hash == hash && not c.revoked then some (id, c) else later

-- The org of the device's site.
abbrev pub org_of : Option String → State → Option String
org_of none st = none
org_of (some site) st = if site == "" then none else get site st.site_orgs

-- The stamps of the contact.
abbrev pub touched : ℕ → String → Credential → Device → State → State
touched now id c d st = record st {
  credentials = put id (record c { last_used_at = some now }) st.credentials;
  devices = put c.device_id (record d { last_seen_at = some now }) st.devices;
}

abbrev pub resolve_found :
    ℕ → State → String → Credential → Option Device → Option (String × Option String × State)
resolve_found now st id c none = none
resolve_found now st id c (some d) =
    if is_active d then some (c.device_id, org_of d.site_id st, touched now id c d st) else none

abbrev pub resolve_credential :
    ℕ → State → Option (String × Credential) → Option (String × Option String × State)
resolve_credential now st none = none
resolve_credential now st (some (id, c)) = resolve_found now st id c (get c.device_id st.devices)

-- The id of the device, its org, and the state after the contact.
unfoldable pub resolve_device : ℕ → String → State → Option (String × Option String × State)
resolve_device now token_hash st =
    resolve_credential now st (find_credential token_hash st.credentials)
