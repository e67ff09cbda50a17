-- ===== src/Accounts/Calls.antt =====
-- The calls on the accounts, in any order; one that raises leaves the tables as they were.
use rebooter_droids.Base.{ℕ, String, Bool, Option, none, some, List, [], ◌∷◌}
use rebooter_droids.Base.Result.{Result, ok, err}
use rebooter_droids.Accounts.Types.{State}
use rebooter_droids.Accounts.Users.{
  UserError, update_user_role, deactivate_user, revoke_one, revoke_all_tokens, change_own_password,
  record_session, consume_reset,
}

pub data Operation : Type 0 where
  changing_role : String → String → Operation
  deactivating : String → Operation
  revoking_tokens : String → Operation
  revoking_session : String → Operation
  changing_password : (String → Bool) → String → String → String → String → Operation
  recording : String → String → String → String → ℕ → Operation
  resetting : String → String → String → String → Option String → Operation

abbrev pub role_state : State → Result UserError (Bool × State) → State
role_state st (ok (found, st')) = st'
role_state st (err e) = st

abbrev pub password_state : State → Result UserError State → State
password_state st (ok st') = st'
password_state st (err e) = st

abbrev pub reset_state : State → Option (String × State) → State
reset_state st none = st
reset_state st (some (user_id, st')) = st'

abbrev pub step : ℕ → Operation → State → State
step now (changing_role id role) st = role_state st (update_user_role now id role st)
step now (deactivating id) st = (deactivate_user now id st).1
step now (revoking_tokens id) st = (revoke_all_tokens now id st).1
step now (revoking_session jti) st = revoke_one now jti st
step now (changing_password verifies id current new new_hash) st =
    password_state st (change_own_password verifies now id current new new_hash st)
step now (recording id user_id kind jti ttl_seconds) st =
    record_session now id user_id kind jti ttl_seconds st
step now (resetting token token_hash new_password new_hash ip) st =
    reset_state st (consume_reset now token token_hash new_password new_hash ip st)

-- Operations with the instants at which they are made.
abbrev pub run : List (ℕ × Operation) → State → State
run [] st = st
run ((now, op) ∷ ops) st = run ops (step now op st)
