-- ===== src/Enrollment/Tokens.antt =====
-- The enrollment tokens of app/services/enrollment.py: minting and revoking. `default_ttl` is what
-- the setting or the configuration gives, in seconds. A token without an org is left to the tenant
-- guard.
pub mod Lookup
use rebooter_droids.Base.{
  ℕ, zero, suc, ◌+◌, ◌*◌, String, Bool, true, false, Option, none, some, List, [], ◌∷◌, ◌++◌, leb,
  seconds, is_some, if◌then◌else◌,
}
use rebooter_droids.Base.Json.{ℤ, pos, negsuc}
use rebooter_droids.Base.Table.{Table, get, put, remove}
use rebooter_droids.Enrollment.Types.{EnrollmentToken, State}

abbrev pub max_ttl : ℕ
max_ttl = 60 * 60 * 24 * 30

-- `min(int(ttl_seconds), 60 * 60 * 24 * 30)`, or the default.
abbrev pub ttl_of : ℕ → Option ℤ → ℕ
ttl_of default_ttl none = default_ttl
ttl_of default_ttl (some (negsuc n)) = default_ttl
ttl_of default_ttl (some (pos zero)) = default_ttl
ttl_of default_ttl (some (pos (suc n))) = if leb (suc n) max_ttl then suc n else max_ttl

-- What the caller gives.
pub record MintRequest : Type 0 where
  pub issued_by_user_id : Option String
  pub site_id : Option String
  pub display_name_hint : Option String
  pub note : Option String
  pub ttl_seconds : Option ℤ
  pub target_device_id : Option String

abbrev pub org_of_site : Option String → State → Option String
org_of_site none st = none
org_of_site (some site) st = get site st.site_orgs

abbrev pub new_token : ℕ → ℕ → String → MintRequest → State → EnrollmentToken
new_token default_ttl now token_hash r st = record {
  token_hash = token_hash;
  issued_by_user_id = r.issued_by_user_id;
  site_id = r.site_id;
  organization_id = org_of_site r.site_id st;
  display_name_hint = r.display_name_hint;
  note = r.note;
  consumed_at = none;
  consumed_by_device_id = none;
  expires_at = now + seconds (ttl_of default_ttl r.ttl_seconds);
  target_device_id = r.target_device_id;
}

-- The state with the new row.
abbrev pub minted : ℕ → ℕ → String → String → MintRequest → State → State
minted default_ttl now id token_hash r st = record st {
  tokens = st.tokens ++ (id, new_token default_ttl now token_hash r st) ∷ [];
}

-- `_mint_enrollment_token_in_session`, for the id and the hash of a new secret; the database takes
-- no id twice.
unfoldable pub mint : ℕ → ℕ → String → String → MintRequest → State → Option State
mint default_ttl now id token_hash r st =
    if is_some (get id st.tokens) then none else some (minted default_ttl now id token_hash r st)

abbrev pub revoked : String → State → State
revoked id st = record st { tokens = remove id st.tokens }

abbrev pub revoke_found : String → State → Option EnrollmentToken → Bool × State
revoke_found id st none = (false, st)
revoke_found id st (some et) = if is_some et.consumed_at then (false, st) else (true, revoked id st)

-- `revoke_enrollment_token`
unfoldable pub revoke_token : String → State → Bool × State
revoke_token id st = revoke_found id st (get id st.tokens)

-- The lists that the bulk call returns.
pub record Bulk : Type 0 where
  pub revoked_ids : List String
  pub skipped_unknown : List String
  pub skipped_consumed : List String

-- What the loop does with one id. The deletes reach the tables at the flush, so an id that comes
-- twice is found twice.
abbrev pub sort_id : String → Option EnrollmentToken → Bulk → Bulk
sort_id id none b = record b { skipped_unknown = id ∷ b.skipped_unknown }
sort_id id (some et) b =
    if is_some et.consumed_at
    then record b { skipped_consumed = id ∷ b.skipped_consumed }
    else record b { revoked_ids = id ∷ b.revoked_ids }

abbrev pub no_ids : Bulk
no_ids = record { revoked_ids = []; skipped_unknown = []; skipped_consumed = [] }

unfoldable pub sort_ids : Table EnrollmentToken → List String → Bulk
sort_ids tokens [] = no_ids
sort_ids tokens (id ∷ ids) = sort_id id (get id tokens) (sort_ids tokens ids)

unfoldable pub remove_all : List String → Table EnrollmentToken → Table EnrollmentToken
remove_all [] tokens = tokens
remove_all (id ∷ ids) tokens = remove_all ids (remove id tokens)

-- `revoke_enrollment_tokens_bulk`
unfoldable pub revoke_tokens_bulk : List String → State → Bulk × State
revoke_tokens_bulk ids st =
    let b = sort_ids st.tokens ids in (b, record st { tokens = remove_all b.revoked_ids st.tokens })
