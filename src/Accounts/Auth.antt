-- ===== src/Accounts/Auth.antt =====
-- `_resolve_user` of app/middleware/admin_auth.py. What a bearer token decodes to is a parameter, for
-- `jwt.decode`; an `iat` is in seconds, counted from the same day as the instants. The
-- cookie that is cleared after a refusal is not kept.
use rebooter_droids.Base.{
  ℕ, ◌/◌, ltb, String, Bool, false, not, ◌&&◌, Option, none, some, ◌==◌, is_some, if◌then◌else◌,
}
use rebooter_droids.Base.Table.{get}
use rebooter_droids.Accounts.Types.{User, Session, State}
use rebooter_droids.Accounts.Users.{find_session}

-- A cookie's session, with its `sid`, or the claims of an access token, with its `jti`.
pub record Presented : Type 0 where
  pub user_id : String
  pub jti : Option String
  pub iat : Option ℕ

abbrev pub session_revoked : Option Session → Bool
session_revoked none = false
session_revoked (some s) = is_some s.revoked_at

-- `_is_jti_revoked`
unfoldable pub is_jti_revoked : Option String → State → Bool
is_jti_revoked none st = false
is_jti_revoked (some jti) st =
    if jti == "" then false else session_revoked (find_session jti st.sessions)

-- `int(t.timestamp())`, but for the constant between the two origins
abbrev pub whole_seconds : ℕ → ℕ
whole_seconds t = t / 1000000

-- `iat is not None and iat < int(cutoff…)`
abbrev pub is_stale : Option ℕ → User → Bool
is_stale none u = false
is_stale (some iat) u = ltb iat (whole_seconds u.tokens_valid_after)

abbrev pub resolve_found : Presented → State → Option User → Option (String × User)
resolve_found p st none = none
resolve_found p st (some u) =
    if not (is_jti_revoked p.jti st) && u.is_active && not (is_stale p.iat u)
    then some (p.user_id, u)
    else none

-- The session of the cookie and the claims of the bearer token.
pub record Request : Type 0 where
  pub cookie : Option Presented
  pub bearer : Option Presented

-- A cookie that names a user is used, whatever becomes of it.
abbrev pub presented : Request → Option Presented
presented r = elim r.cookie [
  | none ↦ r.bearer
  | some p ↦ if p.user_id == "" then r.bearer else some p
]

abbrev pub resolve_presented : State → Option Presented → Option (String × User)
resolve_presented st none = none
resolve_presented st (some p) = resolve_found p st (get p.user_id st.users)

unfoldable pub resolve_user : Request → State → Option (String × User)
resolve_user r st = resolve_presented st (presented r)
