-- ===== src/Examples/Enrollment.antt =====
-- A token that is minted, redeemed twice and revoked; the secret of the first redemption.
use rebooter_droids.Base.{◌≤◌, none, some, List, [], ◌∷◌, ◌≡◌, refl, seconds}
use rebooter_droids.Base.Json.{str, end, field, Fields}
use rebooter_droids.Base.Result.{ok, err}
use rebooter_droids.Base.Table.{get, put}
use rebooter_droids.Enrollment.Types.{State, find_token}
use rebooter_droids.Enrollment.Payload.{
  validate, check_fields, check_mac, text_field, column_field, normal_mac, looks_like_qa,
  enrollment_consumed, device_already_registered,
}
use rebooter_droids.Enrollment.Tokens.{MintRequest, mint, revoke_token}
use rebooter_droids.Enrollment.Consume.{
  Redemption, consume, resolved_name, is_qa, rebind, adopt, any_with_mac, new_device,
}
use rebooter_droids.Enrollment.Consume.Calls.{Call, minting, consuming, revoking, step, redemptions}
use rebooter_droids.Enrollment.Consume.Calls.Once.{redemptions-le_one}
use rebooter_droids.Enrollment.Auth.{find_credential, resolve_device}
use rebooter_droids.Enrollment.Auth.RoundTrip.{device_of, consume-resolve}

abbrev empty : State
empty = record { tokens = []; devices = []; credentials = []; site_orgs = ("site-1", "org-1") ∷ [] }

abbrev for_site : MintRequest
for_site = record {
  issued_by_user_id = some "usr-1";
  site_id = some "site-1";
  display_name_hint = some "Lamp";
  note = none;
  ttl_seconds = none;
  target_device_id = none;
}

abbrev reported : Fields
reported = field "mac_address" (str " aa:bb ") (field "firmware_version" (str "0.9") end)

abbrev first : Redemption
first = record {
  token_hash = "h1";
  secret_hash = "s1";
  device_id = "dev-1";
  credential_id = "dcr-1";
  now = seconds 10;
  default_site = none;
  payload = reported;
}

abbrev second : Redemption
second = record first {
  secret_hash = "s2";
  device_id = "dev-2";
  credential_id = "dcr-2";
  payload = end;
}

abbrev calls : List Call
calls =
    minting 86400 0 "et-1" "h1" for_site
    ∷ consuming first
    ∷ consuming second
    ∷ revoking "et-1"
    ∷ minting 86400 (seconds 20) "et-2" "h1" for_site
    ∷ consuming second
    ∷ []

once_test : redemptions "h1" calls empty ≡ 1
unfolding redemptions mint revoke_token consume validate check_fields check_mac find_token adopt
    rebind any_with_mac new_device text_field column_field normal_mac looks_like_qa resolved_name
    is_qa get put
once_test = refl

redemptions-le_one_example : redemptions "h1" calls empty ≤ 1
redemptions-le_one_example = redemptions-le_one "h1" calls empty tt

abbrev minted_state : State
minted_state = step (minting 86400 0 "et-1" "h1" for_site) empty

abbrev registered : State
registered = step (consuming first) minted_state

first_test : consume first minted_state ≡ ok ("dev-1", registered)
unfolding mint consume validate check_fields check_mac find_token adopt rebind any_with_mac
    new_device text_field column_field normal_mac looks_like_qa resolved_name is_qa get put
first_test = refl

again_test : consume second registered ≡ err enrollment_consumed
unfolding mint consume validate check_fields check_mac find_token adopt rebind any_with_mac
    new_device text_field column_field normal_mac looks_like_qa resolved_name is_qa get put
again_test = refl

-- A second token does not register a device whose MAC address is there already.
twice_test :
    consume
      (record second { token_hash = "h2"; payload = field "mac_address" (str "AA:BB") end })
      (step (minting 86400 0 "et-2" "h2" for_site) registered)
    ≡ err device_already_registered
unfolding mint consume validate check_fields check_mac find_token adopt rebind any_with_mac
    new_device text_field column_field normal_mac looks_like_qa resolved_name is_qa get put
twice_test = refl

unknown_test : find_credential "s1" minted_state.credentials ≡ none
unfolding mint find_credential get
unknown_test = refl

consume-resolve_example : device_of (resolve_device (seconds 30) "s1" registered) ≡ some "dev-1"
consume-resolve_example =
    consume-resolve first minted_state registered "dev-1" (seconds 30) unknown_test first_test
