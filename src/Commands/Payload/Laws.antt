-- ===== src/Commands/Payload/Laws.antt =====
-- What a validated payload is: validation is stable, and a LAN scan has a range within one subnet.
use rebooter_droids.Base.{
  ℕ, ◌≤◌, true, Option, none, some, ◌≡◌, ◌≢◌, refl, subst, Bool-cases, inl, inr, arith,
}
use rebooter_droids.Base.Result.{ok}
use rebooter_droids.Base.Json.{pos, negsuc, ℤ, Json, str, Fields, get_field, as_int, end, field}
use rebooter_droids.Commands.Types.{
  CommandType, set_mode, apply_config, relay_cycle, lan_scan, lan_proxy, lan_ota_push,
}
use rebooter_droids.Commands.Payload.{
  scan_range, validate_scan, validate_mode, is_mode, or_empty, validate_fields, validate_payload,
}

-- The two bounds of an accepted scan, and the payload that keeps their values.
record ScanBounds (a b : Option Json) (out : Fields) : Type 0 where
  start : ℕ
  stop : ℕ
  start_value : Json
  stop_value : Json
  is_start : as_int (some start_value) ≡ some (pos start)
  is_stop : as_int (some stop_value) ≡ some (pos stop)
  first_host : 1 ≤ start
  ordered : start ≤ stop
  last_host : stop ≤ 254
  payload : out ≡ field "start" start_value (field "end" stop_value end)

range_bounds :
    (x y : Json) (m n : Option ℤ) {out : Fields}
    → as_int (some x) ≡ m
    → as_int (some y) ≡ n
    → scan_range x y m n ≡ ok out
    → ScanBounds (some x) (some y) out
range_bounds x y none n p q h = cc
range_bounds x y (some m) none p q h = cc
range_bounds x y (some (negsuc m)) (some n) p q h = absurd (ground arith)
range_bounds x y (some (pos m)) (some (negsuc n)) p q h = absurd (ground arith)
range_bounds x y (some (pos m)) (some (pos n)) p q h = record {
  start = m;
  stop = n;
  start_value = x;
  stop_value = y;
  is_start = p;
  is_stop = q;
  first_host = ground arith;
  ordered = ground arith;
  last_host = ground arith;
  payload = ground arith;
}

scan_bounds : (a b : Option Json) {out : Fields} → validate_scan a b ≡ ok out → ScanBounds a b out
scan_bounds none b h = cc
scan_bounds (some x) none h = cc
scan_bounds (some x) (some y) h = range_bounds x y (as_int (some x)) (as_int (some y)) refl refl h

-- An accepted scan names a first and a last host of a /24, in order.
pub lan_scan-range :
    (payload : Option Fields) {out : Fields}
    → validate_payload lan_scan payload ≡ ok out
    → (start stop : ℕ) × (as_int (get_field "start" out) ≡ some (pos start))
      × (as_int (get_field "end" out) ≡ some (pos stop))
      × (1 ≤ start)
      × (start ≤ stop)
      × (stop ≤ 254)
unfolding validate_payload
lan_scan-range payload h =
    let b =
      scan_bounds (get_field "start" (or_empty payload)) (get_field "end" (or_empty payload)) h in
    (
      b.start,
      b.stop,
      rw (b.payload) b.is_start,
      rw (b.payload) b.is_stop,
      b.first_host,
      b.ordered,
      b.last_host,
    )

scan_idem :
    (a b : Option Json) {out : Fields}
    → validate_scan a b ≡ ok out
    → validate_fields lan_scan out ≡ ok out
unfolding validate_fields
scan_idem a b h =
    let s = scan_bounds a b h in
    rw (s.payload, s.is_start, s.is_stop) (ground (arith, s.first_host, s.ordered, s.last_host))

mode_idem :
    (v : Option Json) {out : Fields}
    → validate_mode v ≡ ok out
    → validate_fields set_mode out ≡ ok out
unfolding validate_fields
mode_idem none h = cc
mode_idem (some (str s)) {out} h = elim (Bool-cases (is_mode s)) [
  | inl e ↦ subst (λ f. validate_fields set_mode f ≡ ok f) (kept e) (rw e)
  | inr e ↦ absurd (ground (arith, e))
]
  where
    kept : is_mode s ≡ true → field "mode" (str s) end ≡ out
    kept e = ground (arith, e)
mode_idem (some _) h = cc

-- Validating a validated payload changes nothing, for every command type but the LAN proxy and OTA
-- push, whose results are rebuilt from their parts.
pub validate_payload_idem :
    (type : CommandType) (payload : Option Fields) {out : Fields}
    → type ≢ lan_proxy
    → type ≢ lan_ota_push
    → validate_payload type payload ≡ ok out
    → validate_payload type (some out) ≡ ok out
unfolding validate_payload
validate_payload_idem set_mode payload p q h = mode_idem (get_field "mode" (or_empty payload)) h
validate_payload_idem lan_scan payload p q h =
    scan_idem (get_field "start" (or_empty payload)) (get_field "end" (or_empty payload)) h
validate_payload_idem lan_proxy payload p q h = absurd (p refl)
validate_payload_idem lan_ota_push payload p q h = absurd (q refl)
validate_payload_idem apply_config payload {out} p q h = ground arith
validate_payload_idem relay_cycle payload {out} p q h = ground arith
validate_payload_idem type payload p q h = ground arith
