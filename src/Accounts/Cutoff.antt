-- ===== src/Accounts/Cutoff.antt =====
-- What is issued before a revocation authenticates nobody after it.
use rebooter_droids.Base.{
  ℕ, ◌≤◌, ◌<◌, String, Bool, true, false, Option, none, some, List, [], ◌∷◌, ◌==◌, ◌≡◌, refl, arith,
  eq_iff, sym, ap, ◌∙◌, inl, inr, Bool-cases, Option-cases, All,
}
use rebooter_droids.Base.Result.{Result-cases}
use rebooter_droids.Base.Table.{get}
use rebooter_droids.Accounts.Types.{State}
use rebooter_droids.Accounts.Users.{
  is_role, update_user_role, deactivate_user, revoke_sessions, revoke_one, revoke_all_tokens,
  change_own_password, record_session, consume_reset,
}
use rebooter_droids.Accounts.Auth.{Presented, Request, presented, resolve_user, whole_seconds}
use rebooter_droids.Accounts.Calls.{
  Operation, changing_role, deactivating, revoking_tokens, revoking_session, changing_password,
  recording, resetting, role_state, password_state, reset_state, step, run,
}
use rebooter_droids.Accounts.Stamps.{
  is_for, revokes, CutAt, save-CutAt, missing-CutAt, Stamped-CutAt, change_own_password-Stamped,
  consume_reset-Stamped,
}

module _ (id : String) (t now : ℕ) (st : State) (le : t ≤ now) where
  role-CutAt :
      (j role : String)
      → CutAt id t st
      → CutAt id t (role_state st (update_user_role now j role st))
  unfolding update_user_role
  role-CutAt j role h = elim (Bool-cases (is_role role)) [
    | inr bad ↦ rw bad h
    | inl good ↦ elim (Option-cases (get j st.users)) [
      | inl missing ↦ rw good (rw missing h)
      | inr (w, there) ↦ rw good (
          rw there (
            save-CutAt id t j _ st (λ other. h)
              (λ same. h w (ground (arith, there, same, eq_iff j id)))))
    ]
  ]

  deactivate-CutAt :
      (j : String) → ((j == id) ≡ false → CutAt id t st) → CutAt id t (deactivate_user now j st).1
  unfolding deactivate_user
  deactivate-CutAt j h = elim (Option-cases (get j st.users)) [
    | inl missing ↦ rw missing (missing-CutAt id t j st missing h)
    | inr (w, there) ↦ rw there (save-CutAt id t j _ st h (λ same. le))
  ]

  revoke_tokens-CutAt :
      (j : String) → ((j == id) ≡ false → CutAt id t st) → CutAt id t (revoke_all_tokens now j st).1
  unfolding revoke_all_tokens revoke_sessions
  revoke_tokens-CutAt j h = elim (Option-cases (get j st.users)) [
    | inl missing ↦ rw missing (missing-CutAt id t j st missing h)
    | inr (w, there) ↦ rw there (save-CutAt id t j _ st h (λ same. le))
  ]

  password-CutAt :
      (verifies : String → Bool) (j current new new_hash : String)
      → (revokes now id (changing_password verifies j current new new_hash) st ≡ false
          → CutAt id t st)
      → CutAt id t (password_state st (change_own_password verifies now j current new new_hash st))
  password-CutAt verifies j current new new_hash h =
      elim (Result-cases (change_own_password verifies now j current new new_hash st)) [
        | inr (x, failed) ↦ rw failed (h (ground (arith, failed)))
        | inl (st', done) ↦ rw done (
            Stamped-CutAt id t now j st st' le
              (change_own_password-Stamped verifies now j current new new_hash st st' done)
              (λ other. h (ground (arith, other))))
      ]

  reset-CutAt :
      (token token_hash new_password new_hash : String) (ip : Option String)
      → (revokes now id (resetting token token_hash new_password new_hash ip) st ≡ false
          → CutAt id t st)
      → CutAt id t (reset_state st (consume_reset now token token_hash new_password new_hash ip st))
  reset-CutAt token token_hash new_password new_hash ip h =
      elim (Option-cases (consume_reset now token token_hash new_password new_hash ip st)) [
        | inl nothing ↦ rw nothing (h (ap (is_for id) nothing))
        | inr ((j, st'), done) ↦ rw done (
            Stamped-CutAt id t now j st st' le
              (consume_reset-Stamped now token token_hash new_password new_hash ip st j st' done)
              (λ other. h (ap (is_for id) done ∙ other)))
      ]

  record-users :
      (row user_id kind jti : String) (ttl_seconds : ℕ)
      → (record_session now row user_id kind jti ttl_seconds st).users ≡ st.users
  unfolding record_session
  record-users row user_id kind jti ttl_seconds = ground arith

  -- An operation keeps the cutoff, and makes it where it revokes the user's tokens.
  step-CutAt :
      (op : Operation)
      → (revokes now id op st ≡ false → CutAt id t st)
      → CutAt id t (step now op st)
  unfolding revoke_one
  step-CutAt (changing_role j role) h = role-CutAt j role (h refl)
  step-CutAt (deactivating j) h = deactivate-CutAt j h
  step-CutAt (revoking_tokens j) h = revoke_tokens-CutAt j h
  step-CutAt (revoking_session jti) h = h refl
  step-CutAt (changing_password verifies j current new new_hash) h =
      password-CutAt verifies j current new new_hash h
  step-CutAt (recording row user_id kind jti ttl_seconds) h =
      λ u e. h refl u (ap (get id) (sym (record-users row user_id kind jti ttl_seconds)) ∙ e)
  step-CutAt (resetting token token_hash new_password new_hash ip) h =
      reset-CutAt token token_hash new_password new_hash ip h

run-CutAt :
    (id : String) (t : ℕ) (ops : List (ℕ × Operation)) (st : State)
    → All (λ call. t ≤ call.0) ops
    → CutAt id t st
    → CutAt id t (run ops st)
run-CutAt id t [] st later h = h
run-CutAt id t ((now, op) ∷ ops) st (le, later) h =
    run-CutAt id t ops (step now op st) later (step-CutAt id t now st le op (λ e. h))

resolve-CutAt :
    (r : Request) (p : Presented) (t iat : ℕ) (st : State)
    → CutAt p.user_id t st
    → presented r ≡ some p
    → p.iat ≡ some iat
    → iat < whole_seconds t
    → resolve_user r st ≡ none
unfolding resolve_user
resolve-CutAt r p t iat st h used issued early = elim (Option-cases (get p.user_id st.users)) [
  | inl missing ↦ rw used (rw missing refl)
  | inr (u, there) ↦ rw used (rw there (ground (arith, issued, early, h u there)))
]

-- Once a user's tokens are revoked, by a deactivation, a revocation, a change of the password or a
-- reset that succeeds, nothing that was issued to the user in an earlier second authenticates any
-- more, cookie or token, whatever is called at that instant or later.
pub revoked-resolve :
    (t : ℕ) (op : Operation) (st : State) (ops : List (ℕ × Operation)) (r : Request) (p : Presented)
    (iat : ℕ)
    → revokes t p.user_id op st ≡ true
    → All (λ call. t ≤ call.0) ops
    → presented r ≡ some p
    → p.iat ≡ some iat
    → iat < whole_seconds t
    → resolve_user r (run ops (step t op st)) ≡ none
revoked-resolve t op st ops r p iat revoked later used issued early =
    let cut =
      step-CutAt p.user_id t t st (omega arith) op
        (λ no. let clash : true ≡ false = ground (arith, revoked, no) in cc clash) in
    resolve-CutAt r p t iat (run ops (step t op st))
      (run-CutAt p.user_id t ops (step t op st) later cut) used issued early
