-- ===== src/Accounts/Users.antt =====
-- The operations of app/services/users.py, app/services/sessions.py and
-- app/services/password_resets.py that change a user, a session or a reset. A new hash and the
-- answer of `verify_password` are parameters, and so are the ids of new rows.
use rebooter_droids.Base.{
  ℕ, ◌+◌, String, Bool, true, false, not, ◌||◌, Option, none, some, [], ◌∷◌, ◌++◌, ◌==◌, leb,
  length, seconds, is_some, if◌then◌else◌,
}
use rebooter_droids.Base.Json.{codes}
use rebooter_droids.Base.Result.{Result, ok, err, ◌>>◌, require}
use rebooter_droids.Base.Table.{Table, get, put, update}
use rebooter_droids.Accounts.Types.{User, Session, PasswordReset, State}

-- What `UserError` says.
pub data UserError : Type 0 where
  unknown_role weak_password same_password user_not_found wrong_password : UserError

abbrev pub save : String → User → State → State
save id u st = record st { users = put id u st.users }

-- `role in ALL_ROLES`
abbrev pub is_role : String → Bool
is_role r = r == "super_admin" || r == "admin" || r == "operator" || r == "viewer"

abbrev pub role_found : ℕ → String → String → State → Option User → Bool × State
role_found now id role st none = (false, st)
role_found now id role st (some u) = (
  true,
  save id
      (record u {
        role = role;
        is_super_admin = role == "super_admin";
        is_admin = not (role == "viewer");
        updated_at = now;
      })
      st,
)

unfoldable pub update_user_role : ℕ → String → String → State → Result UserError (Bool × State)
update_user_role now id role st =
    require (is_role role) unknown_role >> ok (role_found now id role st (get id st.users))

abbrev pub deactivate_found : ℕ → String → State → Option User → Bool × State
deactivate_found now id st none = (false, st)
deactivate_found now id st (some u) =
    (true, save id (record u { is_active = false; tokens_valid_after = now; updated_at = now }) st)

unfoldable pub deactivate_user : ℕ → String → State → Bool × State
deactivate_user now id st = deactivate_found now id st (get id st.users)

abbrev pub revoke_session : ℕ → Session → Session
revoke_session now s = if is_some s.revoked_at then s else record s { revoked_at = some now }

-- `sessions.revoke_all_for_user`
unfoldable pub revoke_sessions : ℕ → String → State → State
revoke_sessions now user_id st = record st {
  sessions = update (λ id s. if s.user_id == user_id then revoke_session now s else s) st.sessions;
}

-- `sessions.revoke_one`
unfoldable pub revoke_one : ℕ → String → State → State
revoke_one now jti st = record st {
  sessions = update (λ id s. if s.jti == jti then revoke_session now s else s) st.sessions;
}

abbrev pub revoke_tokens_found : ℕ → String → State → Option User → Bool × State
revoke_tokens_found now id st none = (false, st)
revoke_tokens_found now id st (some u) = (
  true,
  revoke_sessions now id (save id (record u { tokens_valid_after = now; updated_at = now }) st),
)

unfoldable pub revoke_all_tokens : ℕ → String → State → Bool × State
revoke_all_tokens now id st = revoke_tokens_found now id st (get id st.users)

-- `len(password) < 8`
abbrev pub is_weak : String → Bool
is_weak password = not (leb 8 (length (codes password)))

abbrev pub change_found :
    (String → Bool) → ℕ → String → String → State → Option User → Result UserError State
change_found verifies now id new_hash st none = err user_not_found
change_found verifies now id new_hash st (some u) =
    require (verifies u.password_hash) wrong_password
    >> ok (
        save id (record u { password_hash = new_hash; updated_at = now; tokens_valid_after = now })
          st)

-- `verifies` says which hashes the current password matches.
unfoldable pub change_own_password :
    (String → Bool) → ℕ → String → String → String → String → State → Result UserError State
change_own_password verifies now id current_password new_password new_hash st = do
  require (not (is_weak new_password)) weak_password
  require (not (current_password == new_password)) same_password
  change_found verifies now id new_hash st (get id st.users)

unfoldable pub find_session : String → Table Session → Option Session
find_session jti [] = none
find_session jti ((id, s) ∷ rest) =
    let later = find_session jti rest in if s.jti == jti then some s else later

-- `sessions.record`, on the new row's id; a row that the database refuses is not written.
unfoldable pub record_session : ℕ → String → String → String → String → ℕ → State → State
record_session now id user_id kind jti ttl_seconds st =
    if is_some (get id st.sessions) || is_some (find_session jti st.sessions)
    then st
    else record st {
      sessions =
          st.sessions
          ++ (
            id,
            record {
              user_id = user_id;
              kind = kind;
              jti = jti;
              issued_at = now;
              expires_at = now + seconds ttl_seconds;
              revoked_at = none;
            },
          )
            ∷ [];
    }

unfoldable pub find_reset : String → Table PasswordReset → Option (String × PasswordReset)
find_reset hash [] = none
find_reset hash ((id, r) ∷ rest) =
    let later = find_reset hash rest in if r.token_hash == hash then some (id, r) else later

-- The columns that a reset sets.
abbrev pub reset_user : ℕ → String → User → User
reset_user now new_hash u = record u {
  password_hash = new_hash;
  updated_at = now;
  tokens_valid_after = now;
}

abbrev pub reset_for :
    ℕ
    → String
    → Option String
    → String
    → PasswordReset
    → State
    → Option User
    → Option (String × State)
reset_for now new_hash ip id rec st none = none
reset_for now new_hash ip id rec st (some u) =
    if u.is_active
    then some (
      rec.user_id,
      record (save rec.user_id (reset_user now new_hash u) st) {
        resets = put id (record rec { consumed_at = some now; consumed_ip = ip }) st.resets;
      },
    )
    else none

abbrev pub reset_found :
    ℕ → String → Option String → State → Option (String × PasswordReset) → Option (String × State)
reset_found now new_hash ip st none = none
reset_found now new_hash ip st (some (id, rec)) =
    if is_some rec.consumed_at || leb rec.expires_at now
    then none
    else reset_for now new_hash ip id rec st (get rec.user_id st.users)

-- `consume_reset`, on the token and its hash; the result is the id of the user.
unfoldable pub consume_reset :
    ℕ → String → String → String → String → Option String → State → Option (String × State)
consume_reset now token token_hash new_password new_hash ip st =
    if token == "" || is_weak new_password
    then none
    else reset_found now new_hash ip st (find_reset token_hash st.resets)
