-- ===== src/Enrollment/Auth/RoundTrip.antt =====
-- The secret that a redemption hands out, and the device that it authenticates.
use rebooter_droids.Base.{
  ℕ, String, true, false, Option, none, some, [], ◌∷◌, ◌++◌, ◌≡◌, inl, inr, refl, arith, eq_iff,
  Option-cases,
}
use rebooter_droids.Base.Result.{ok, Result-cases}
use rebooter_droids.Base.Table.{Table, get, get-put}
use rebooter_droids.Base.Table.Keyed.{get-append_row}
use rebooter_droids.Enrollment.Types.{
  EnrollmentToken, Device, Credential, State, is_active, find_token,
}
use rebooter_droids.Enrollment.Payload.{validate}
use rebooter_droids.Enrollment.Consume.{
  Redemption, or_text, non_empty, rebound, delete_credentials, new_credential, rebind, adopt,
  new_device, register, redeem, consume,
}
use rebooter_droids.Enrollment.Auth.{find_credential, resolve_device}

module _ (hash : String) where
  find_credential-append :
      (t : Table Credential) (i : String) (c : Credential)
      → find_credential hash t ≡ none
      → c.token_hash ≡ hash
      → c.revoked ≡ false
      → find_credential hash (t ++ (i, c) ∷ []) ≡ some (i, c)
  unfolding find_credential
  find_credential-append [] i c e same live = ground (arith, eq_iff c.token_hash hash, same, live)
  find_credential-append ((j, w) ∷ t) i c e same live =
      ground (arith, e, find_credential-append t i c, same, live)

  find_credential-delete :
      (device_id : String) (t : Table Credential)
      → find_credential hash t ≡ none
      → find_credential hash (delete_credentials device_id t) ≡ none
  unfolding find_credential delete_credentials
  find_credential-delete device_id [] e = refl
  find_credential-delete device_id ((j, w) ∷ t) e =
      ground (arith, e, find_credential-delete device_id t)

-- The secret's hash finds a credential of the device, which is there and active.
record Accepts (hash d : String) (st : State) : Type 0 where
  pub credential_id : String
  pub device : Device
  pub known : find_credential hash st.credentials ≡ some (credential_id, new_credential d hash)
  pub there : get d st.devices ≡ some device
  pub active : is_active device ≡ true

register-Accepts :
    (r : Redemption) (et : EnrollmentToken) (st : State) (target : Option String) (d : String)
    (st' : State)
    → find_credential r.secret_hash st.credentials ≡ none
    → register r et st target ≡ ok (d, st')
    → Accepts r.secret_hash d st'
unfolding rebind adopt rebound new_device
register-Accepts r et st (some target) d st' fresh e = elim (Option-cases (get target st.devices)) [
  | inl gone ↦ cc (rw gone at e)
  | inr (w, here) ↦
      let dev = rebound r.now r.payload w in
      record {
        credential_id = r.credential_id;
        device = dev;
        known = ground (
          arith,
          here,
          e,
          find_credential-append r.secret_hash (delete_credentials target st.credentials)
              r.credential_id (new_credential target r.secret_hash)
              (find_credential-delete r.secret_hash target st.credentials fresh) refl refl,
        );
        there = ground (arith, here, e, get-put target target dev st.devices, eq_iff target target);
        active = refl;
      }
]
register-Accepts r et st none d st' fresh e =
    elim (Option-cases (or_text (non_empty et.site_id) r.default_site)) [
      | inl nowhere ↦ let no : true ≡ false = ground (arith, nowhere, e) in cc no
      | inr (site, somewhere) ↦
          let dev = new_device r et site in
          record {
            credential_id = r.credential_id;
            device = dev;
            known = ground (
              arith,
              somewhere,
              e,
              find_credential-append r.secret_hash st.credentials r.credential_id
                  (new_credential r.device_id r.secret_hash) fresh refl refl,
            );
            there = ground (
              arith,
              somewhere,
              e,
              get-append_row r.device_id r.device_id dev st.devices,
              eq_iff r.device_id r.device_id,
            );
            active = refl;
          }
    ]

abbrev pub device_of : Option (String × Option String × State) → Option String
device_of none = none
device_of (some (device_id, org, st)) = some device_id

Accepts-resolve :
    (now : ℕ) (hash d : String) (st : State)
    → Accepts hash d st
    → device_of (resolve_device now hash st) ≡ some d
unfolding resolve_device
Accepts-resolve now hash d st a = rw a.known (rw a.there (rw a.active refl))

redeem-resolve :
    (r : Redemption) (st st' : State) (id : String) (et : EnrollmentToken) (d : String) (now : ℕ)
    → find_credential r.secret_hash st.credentials ≡ none
    → redeem r st (some (id, et)) ≡ ok (d, st')
    → device_of (resolve_device now r.secret_hash st') ≡ some d
redeem-resolve r st st' id et d now fresh e =
    let target = non_empty et.target_device_id in
    elim (Result-cases (register r et st target)) [
      | inr (x, stopped) ↦ ground (arith, stopped, e)
      | inl ((d1, st1), there) ↦
          let a = register-Accepts r et st target d1 st1 fresh there in
          let same : (d1 ≡ d) × (st'.credentials ≡ st1.credentials) × (st'.devices ≡ st1.devices) =
            (ground (arith, there, e), ground (arith, there, e), ground (arith, there, e)) in
          Accepts-resolve now r.secret_hash d st' (record {
            credential_id = a.credential_id;
            device = a.device;
            known = ground (arith, same, a.known);
            there = ground (arith, same, a.there);
            active = a.active;
          })
    ]

-- A redemption that succeeds leaves a state in which the secret that it hands out authenticates, at
-- any time, as the device that was registered or restored, if no credential had the hash of the
-- secret before.
pub consume-resolve :
    (r : Redemption) (st st' : State) (d : String) (now : ℕ)
    → find_credential r.secret_hash st.credentials ≡ none
    → consume r st ≡ ok (d, st')
    → device_of (resolve_device now r.secret_hash st') ≡ some d
unfolding consume
consume-resolve r st st' d now fresh e = elim (Result-cases (validate r.payload)) [
  | inr (x, stopped) ↦ ground (arith, stopped, e)
  | inl (u, fine) ↦ elim (Option-cases (find_token r.token_hash st.tokens)) [
    | inl unknown ↦ ground (arith, fine, unknown, e)
    | inr ((id, et), found) ↦
        let done : redeem r st (some (id, et)) ≡ ok (d, st') = ground (arith, fine, found, e) in
        redeem-resolve r st st' id et d now fresh done
  ]
]
