-- ===== src/Commands/Payload.antt =====
-- `_validate_payload` of app/services/commands.py: the payload schema of each command type.
pub mod Laws
use rebooter_droids.Base.{
  ℕ, ◌+◌, String, Bool, true, false, ◌&&◌, ◌||◌, Option, none, some, List, ◌==◌, leb, if◌then◌else◌,
}
use rebooter_droids.Base.Result.{Result, ok, err, ◌>>=◌}
use rebooter_droids.Base.Json.{
  ℤ, pos, leb_ℤ, Json, str, arr, obj, Fields, end, field, get_field, is_empty, all_keys, as_int,
  as_str, truthy, upper, codes, codes_eq, starts_with,
}
use rebooter_droids.Commands.Types.{
  CommandType, relay_cycle, set_mode, apply_config, lan_scan, lan_proxy, lan_ota_push, Error,
  invalid_payload, type_error, attribute_error,
}

-- `SET_MODE_ALLOWED`
abbrev pub is_mode : String → Bool
is_mode s = s == "smart_plug" || s == "internet_watchdog" || s == "device_watchdog"

-- `APPLY_CONFIG_ALLOWED_TOP_LEVEL`
abbrev pub is_config_key : String → Bool
is_config_key k =
    k == "device_name"
    || k == "relay_restore_behavior"
    || k == "monitor_interval_seconds"
    || k == "boot_warmup_seconds"
    || k == "manual_button_enabled"
    || k == "internet"
    || k == "device"
    || k == "notifications"
    || k == "power"

-- `mode not in SET_MODE_ALLOWED`: a list or a dict cannot be hashed.
abbrev validate_mode : Option Json → Result Error Fields
validate_mode (some (str s)) =
    if is_mode s then ok (field "mode" (str s) end) else err invalid_payload
validate_mode (some (arr _)) = err type_error
validate_mode (some (obj _)) = err type_error
validate_mode _ = err invalid_payload

-- `k in payload and not isinstance(payload[k], int)` is what the schema refuses.
abbrev int_if_present : Option Json → Bool
int_if_present none = true
int_if_present (some v) = elim (as_int (some v)) [ none ↦ false | some n ↦ true ]

-- `1 <= n <= 254`
abbrev pub in_octet : ℤ → Bool
in_octet n = leb_ℤ (pos 1) n && leb_ℤ n (pos 254)

-- `end - start > 254`, tested where both lie in 1..254.
abbrev too_wide : ℤ → ℤ → Bool
too_wide (pos start) (pos stop) = leb (start + 255) stop
too_wide _ _ = false

-- The values go into the result as they came, so a bool stays a bool.
abbrev scan_range : Json → Json → Option ℤ → Option ℤ → Result Error Fields
scan_range start stop (some m) (some n) =
    if in_octet m && in_octet n && leb_ℤ m n
    then if too_wide m n
      then err invalid_payload
      else ok (field "start" start (field "end" stop end))
    else err invalid_payload
scan_range _ _ _ _ = err invalid_payload

abbrev validate_scan : Option Json → Option Json → Result Error Fields
validate_scan (some start) (some stop) =
    scan_range start stop (as_int (some start)) (as_int (some stop))
validate_scan _ _ = err invalid_payload

-- A text that is not empty.
abbrev required_text : Option Json → Result Error String
required_text v = elim (as_str v) [
  | none ↦ err invalid_payload
  | some s ↦ if s == "" then err invalid_payload else ok s
]

abbrev text_with : (String → Bool) → Option Json → Result Error String
text_with p v = elim (as_str v) [
  | none ↦ err invalid_payload
  | some s ↦ if p s then ok s else err invalid_payload
]

abbrev known_method : List ℕ → Result Error String
known_method m =
    if codes_eq m (codes "GET")
    then ok "GET"
    else if codes_eq m (codes "POST")
    then ok "POST"
    else err invalid_payload

-- `(payload.get("method") or "GET").upper()`, and the test that follows: a value that is no text
-- has no `upper`.
abbrev proxy_method : Option Json → Result Error String
proxy_method none = ok "GET"
proxy_method (some (str s)) = if s == "" then ok "GET" else known_method (upper (codes s))
proxy_method (some v) = if truthy v then err attribute_error else ok "GET"

-- `if key in payload: out[key] = payload[key]`, in front of the fields that follow.
abbrev optional_field : String → Option Json → Fields → Fields
optional_field k none rest = rest
optional_field k (some v) rest = field k v rest

abbrev optional_dict : String → Option Json → Fields → Fields
optional_dict k (some (obj fields)) rest = field k (obj fields) rest
optional_dict k _ rest = rest

abbrev validate_proxy : Fields → Result Error Fields
validate_proxy payload = do
  ip ← required_text (get_field "ip" payload)
  path ← text_with (starts_with "/") (get_field "path" payload)
  method ← proxy_method (get_field "method" payload)
  ok (
      field "ip" (str ip) (
        field "path" (str path) (
          field "method" (str method) (
            optional_field "body" (get_field "body" payload)
              (optional_dict "headers" (get_field "headers" payload) end)))))

abbrev validate_ota : Fields → Result Error Fields
validate_ota payload = do
  ip ← required_text (get_field "ip" payload)
  url ←
      text_with (λ s. starts_with "http://" s || starts_with "https://" s) (get_field "url" payload)
  ok (
      field "ip" (str ip)
        (field "url" (str url) (optional_field "sha256" (get_field "sha256" payload) end)))

-- `payload or {}`
abbrev or_empty : Option Fields → Fields
or_empty none = end
or_empty (some payload) = payload

-- The branches of `_validate_payload`, on the payload that is a dict by now.
unfoldable pub validate_fields : CommandType → Fields → Result Error Fields
validate_fields set_mode payload = validate_mode (get_field "mode" payload)
validate_fields apply_config payload =
    if is_empty payload
    then err invalid_payload
    else if all_keys is_config_key payload
    then ok payload
    else err invalid_payload
validate_fields relay_cycle payload =
    if int_if_present (get_field "power_off_seconds" payload)
      && int_if_present (get_field "post_reboot_holdoff_seconds" payload)
    then ok payload
    else err invalid_payload
validate_fields lan_scan payload =
    validate_scan (get_field "start" payload) (get_field "end" payload)
validate_fields lan_proxy payload = validate_proxy payload
validate_fields lan_ota_push payload = validate_ota payload
validate_fields _ payload = ok payload

unfoldable pub validate_payload : CommandType → Option Fields → Result Error Fields
unfolding validate_fields
validate_payload type payload = validate_fields type (or_empty payload)
