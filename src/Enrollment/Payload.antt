-- ===== src/Enrollment/Payload.antt =====
-- The fields of a registration: the checks at the top of `consume_enrollment_token`, and what it
-- reads of the payload. Letters are upper- and lower-cased as ASCII, which is all that a checked
-- MAC address and the prefixes of test devices have.
use rebooter_droids.Base.{
  ℕ, ◌+◌, ◌-◌, String, Bool, true, false, ◌&&◌, ◌||◌, Option, none, some, List, [], ◌∷◌, ◌==◌, leb,
  nat_eq, length, if◌then◌else◌,
}
use rebooter_droids.Base.Json.{Json, null, str, Fields, get_field, codes, starts}
use rebooter_droids.Base.Result.{Result, ok, err, ◌>>◌, require}
use rebooter_droids.Base.Text.{is_space, strip}

-- What `consume_enrollment_token` raises, `taken_id` being the database's refusal of an id that a
-- row has. The texts of messages are not kept.
pub data EnrollmentError : Type 0 where
  validation_failed : String → EnrollmentError
  enrollment_invalid enrollment_consumed enrollment_expired : EnrollmentError
  device_mismatch device_already_registered no_default_site taken_id : EnrollmentError

-- The fields with their lengths, in the order of the checks.
abbrev pub bounded_fields : List (String × ℕ)
bounded_fields =
    ("display_name", 120)
    ∷ ("hardware_model", 80)
    ∷ ("hardware_revision", 40)
    ∷ ("firmware_version", 40)
    ∷ ("mac_address", 40)
    ∷ ("serial_number", 80)
    ∷ ("local_ip", 64)
    ∷ []

-- One turn of the loop, on what `p.get(field)` gives.
abbrev pub check_field : String → ℕ → Option Json → Result EnrollmentError (Unit {0})
check_field name max_len none = ok tt
check_field name max_len (some null) = ok tt
check_field name max_len (some (str s)) =
    require (leb (length (codes s)) max_len) (validation_failed name)
check_field name max_len (some _) = err (validation_failed name)

unfoldable pub check_fields : List (String × ℕ) → Fields → Result EnrollmentError (Unit {0})
check_fields [] p = ok tt
check_fields ((name, max_len) ∷ rest) p = do
  check_field name max_len (get_field name p)
  check_fields rest p

-- The character class `[0-9A-Fa-f:.\-\s]`.
abbrev is_mac_code : ℕ → Bool
is_mac_code c =
    leb b'0' c && leb c b'9'
    || leb b'A' c && leb c b'F'
    || leb b'a' c && leb c b'f'
    || nat_eq c b':'
    || nat_eq c b'.'
    || nat_eq c b'-'
    || is_space c

all_mac_codes : List ℕ → Bool
all_mac_codes [] = true
all_mac_codes (c ∷ cs) = is_mac_code c && all_mac_codes cs

-- A field that is a text and not empty: what `payload.get(field) or …` takes.
abbrev pub text_or_none : Option Json → Option String
text_or_none (some (str s)) = if s == "" then none else some s
text_or_none _ = none

unfoldable pub text_field : String → Fields → Option String
text_field name p = text_or_none (get_field name p)

-- `payload.get(field)` for a column: an empty text is kept.
abbrev pub column_of : Option Json → Option String
column_of (some (str s)) = some s
column_of _ = none

unfoldable pub column_field : String → Fields → Option String
column_field name p = column_of (get_field name p)

-- `re.fullmatch` on a MAC address that is there
unfoldable pub check_mac : Option String → Result EnrollmentError (Unit {0})
unfolding all_mac_codes
check_mac none = ok tt
check_mac (some mac) = require (all_mac_codes (codes mac)) (validation_failed "mac_address")

unfoldable pub validate : Fields → Result EnrollmentError (Unit {0})
validate p = do check_fields bounded_fields p; check_mac (text_field "mac_address" p)

unfoldable pub upper_ascii : List ℕ → List ℕ
upper_ascii [] = []
upper_ascii (c ∷ cs) = (if leb b'a' c && leb c b'z' then c - 32 else c) ∷ upper_ascii cs

unfoldable pub lower_ascii : List ℕ → List ℕ
lower_ascii [] = []
lower_ascii (c ∷ cs) = (if leb b'A' c && leb c b'Z' then c + 32 else c) ∷ lower_ascii cs

abbrev pub codes_or_nil : Option String → List ℕ
codes_or_nil none = []
codes_or_nil (some s) = codes s

-- `(mac or "").strip().upper()`
unfoldable pub normal_mac : Option String → List ℕ
unfolding strip upper_ascii
normal_mac mac = upper_ascii (strip (codes_or_nil mac))

-- `s.startswith(_QA_PREFIXES)`
abbrev pub has_qa_prefix : List ℕ → Bool
has_qa_prefix s =
    starts (codes "qa ") s
    || starts (codes "qa-") s
    || starts (codes "qa_") s
    || starts (codes "test-") s
    || starts (codes "playwright") s

-- `_looks_like_qa`
unfoldable pub looks_like_qa : List (Option String) → Bool
unfolding strip lower_ascii
looks_like_qa [] = false
looks_like_qa (none ∷ rest) = looks_like_qa rest
looks_like_qa (some c ∷ rest) = has_qa_prefix (lower_ascii (strip (codes c))) || looks_like_qa rest
