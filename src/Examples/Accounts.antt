-- ===== src/Examples/Accounts.antt =====
-- A user whose password is reset while a cookie and a token are in use.
use rebooter_droids.Base.{
  ℕ, ◌+◌, Option, String, none, some, true, List, [], ◌∷◌, ◌≡◌, refl, arith, seconds,
}
use rebooter_droids.Base.Table.{get, put}
use rebooter_droids.Accounts.Types.{User, PasswordReset, State}
use rebooter_droids.Accounts.Users.{consume_reset, find_reset, find_session}
use rebooter_droids.Accounts.Auth.{Presented, Request, resolve_user, is_jti_revoked}
use rebooter_droids.Accounts.Calls.{Operation, resetting, recording, step, run}
use rebooter_droids.Accounts.Stamps.{revokes}
use rebooter_droids.Accounts.Cutoff.{revoked-resolve}

abbrev owner : User
owner = record {
  email = "ann@example.org";
  password_hash = "old";
  display_name = "Ann";
  is_active = true;
  is_admin = true;
  is_super_admin = true;
  role = "super_admin";
  tokens_valid_after = 0;
  updated_at = 0;
}

abbrev asked : PasswordReset
asked = record {
  user_id = "usr-1";
  email_snapshot = "ann@example.org";
  token_hash = "h1";
  expires_at = seconds 3600;
  consumed_at = none;
  requested_ip = none;
  consumed_ip = none;
}

abbrev before : State
before = record { users = ("usr-1", owner) ∷ []; sessions = []; resets = ("pwr-1", asked) ∷ [] }

abbrev cookie_of : ℕ → Presented
cookie_of iat = record { user_id = "usr-1"; jti = some "j1"; iat = some iat }

abbrev with_cookie : ℕ → Request
with_cookie iat = record { cookie = some (cookie_of iat); bearer = none }

abbrev reset_it : Operation
reset_it = resetting "pwr_secret" "h1" "a new password" "new" none

abbrev logins : List (ℕ × Operation)
logins = (seconds 11, recording "sess-2" "usr-1" "cookie" "j2" 3600) ∷ []

valid_test : resolve_user (with_cookie 9) before ≡ some ("usr-1", owner)
unfolding resolve_user is_jti_revoked find_session get
valid_test = refl

reset_test : revokes (seconds 10) "usr-1" reset_it before ≡ true
unfolding consume_reset find_reset get
reset_test = refl

revoked-resolve_example :
    resolve_user (with_cookie 9) (run logins (step (seconds 10) reset_it before)) ≡ none
revoked-resolve_example =
    revoked-resolve (seconds 10) reset_it before logins (with_cookie 9) (cookie_of 9) 9 reset_test
      (omega arith, tt) refl refl (omega arith)

abbrev name_of : Option (String × User) → Option String
name_of none = none
name_of (some (id, u)) = some id

-- What was issued half a second before the reset, in the same second, is still good.
same_second_test :
    name_of (resolve_user (with_cookie 10) (step (seconds 10 + 500000) reset_it before))
    ≡ some "usr-1"
unfolding resolve_user is_jti_revoked find_session get put consume_reset find_reset
same_second_test = refl
