-- ===== src/Enrollment/Consume/Calls/Writes.antt =====
-- What the calls write to the tokens; no two rows come to share an id.
use rebooter_droids.Base.{
  ℕ, String, Bool, true, false, Option, none, some, List, [], ◌∷◌, ◌≡◌, inl, inr, refl, arith,
  is_some, Option-cases, subst, sym, if_cases,
}
use rebooter_droids.Base.Result.{ok, Result-cases}
use rebooter_droids.Base.Table.{Table, get, put, remove}
use rebooter_droids.Base.Table.Keyed.{IsKeyed, put-IsKeyed, remove-IsKeyed, append_row-IsKeyed}
use rebooter_droids.Enrollment.Types.{EnrollmentToken, State, find_token}
use rebooter_droids.Enrollment.Payload.{validate}
use rebooter_droids.Enrollment.Tokens.{
  mint, new_token, revoke_token, revoke_found, revoke_tokens_bulk, remove_all, sort_ids,
}
use rebooter_droids.Enrollment.Consume.{
  Redemption, non_empty, rebind, adopt, or_text, register, consumed_token, redeem, consume,
}
use rebooter_droids.Enrollment.Auth.{find_credential, resolve_device}
use rebooter_droids.Enrollment.Consume.Calls.{
  Call, minting, revoking, revoking_all, consuming, resolving, resolved_or, step,
}

register-tokens :
    (r : Redemption) (et : EnrollmentToken) (st : State) (target : Option String) (d : String)
    (st' : State)
    → register r et st target ≡ ok (d, st')
    → st'.tokens ≡ st.tokens
unfolding rebind adopt
register-tokens r et st (some target) d st' e = elim (Option-cases (get target st.devices)) [
  | inl gone ↦ ground (arith, gone, e)
  | inr (w, there) ↦ ground (arith, there, e)
]
register-tokens r et st none d st' e =
    elim (Option-cases (or_text (non_empty et.site_id) r.default_site)) [
      | inl nowhere ↦ ground (arith, nowhere, e)
      | inr (site, there) ↦ ground (arith, there, e)
    ]

redeem-tokens :
    (r : Redemption) (st : State) (id : String) (et : EnrollmentToken) (d : String) (st' : State)
    → redeem r st (some (id, et)) ≡ ok (d, st')
    → (is_some et.consumed_at ≡ false) × (st'.tokens ≡ put id (consumed_token r.now d et) st.tokens)
redeem-tokens r st id et d st' e =
    let m = register r et st (non_empty et.target_device_id) in
    elim (Result-cases m) [
      | inl ((d1, st1), there) ↦ (
        ground (arith, e),
        ground
            (arith, there, e, register-tokens r et st (non_empty et.target_device_id) d1 st1 there),
      )
      | inr (x, stopped) ↦ (ground (arith, e), ground (arith, stopped, e))
    ]

-- What a redemption that succeeds does to the tokens.
pub consume-tokens :
    (r : Redemption) (st : State) (d : String) (st' : State)
    → consume r st ≡ ok (d, st')
    → (id : String) × (et : EnrollmentToken) × (find_token r.token_hash st.tokens ≡ some (id, et))
      × (is_some et.consumed_at ≡ false)
      × (st'.tokens ≡ put id (consumed_token r.now d et) st.tokens)
unfolding consume
consume-tokens r st d st' e = elim (Result-cases (validate r.payload)) [
  | inr (x, stopped) ↦ ground (arith, stopped, e)
  | inl (u, fine) ↦ elim (Option-cases (find_token r.token_hash st.tokens)) [
    | inl unknown ↦ ground (arith, fine, unknown, e)
    | inr ((id, et), found) ↦
        let done : redeem r st (some (id, et)) ≡ ok (d, st') = ground (arith, fine, found, e) in
        let (fresh, after) = redeem-tokens r st id et d st' done in (id, et, found, fresh, after)
  ]
]

pub remove_all-IsKeyed :
    (ids : List String) (t : Table EnrollmentToken) → IsKeyed t → IsKeyed (remove_all ids t)
unfolding remove_all
remove_all-IsKeyed [] t u = u
remove_all-IsKeyed (id ∷ ids) t u = remove_all-IsKeyed ids (remove id t) (remove-IsKeyed id t u)

pub resolve-tokens :
    (now : ℕ) (token_hash : String) (st : State)
    → (resolved_or st (resolve_device now token_hash st)).tokens ≡ st.tokens
unfolding resolve_device
resolve-tokens now token_hash st = elim (Option-cases (find_credential token_hash st.credentials)) [
  | inl unknown ↦ rw unknown refl
  | inr ((id, c), known) ↦ elim (Option-cases (get c.device_id st.devices)) [
    | inl gone ↦ rw known (rw gone refl)
    | inr (d, there) ↦ rw known (rw there (ground arith))
  ]
]

revoke_found-IsKeyed :
    (id : String) (st : State) (o : Option EnrollmentToken)
    → IsKeyed st.tokens
    → IsKeyed (revoke_found id st o).1.tokens
revoke_found-IsKeyed id st none u = u
revoke_found-IsKeyed id st (some w) u =
    if_cases (λ (out : Bool × State). IsKeyed out.1.tokens) (is_some w.consumed_at) (false, st)
      (true, record st { tokens = remove id st.tokens }) u (remove-IsKeyed id st.tokens u)

pub step-IsKeyed : (c : Call) (st : State) → IsKeyed st.tokens → IsKeyed (step c st).tokens
unfolding mint revoke_token revoke_tokens_bulk
step-IsKeyed (minting default_ttl now id token_hash r) st u =
    elim (Option-cases (get id st.tokens)) [
      | inr (w, taken) ↦ rw taken u
      | inl free ↦
          rw free
            (append_row-IsKeyed id (new_token default_ttl now token_hash r st) st.tokens free u)
    ]
step-IsKeyed (revoking id) st u = revoke_found-IsKeyed id st (get id st.tokens) u
step-IsKeyed (revoking_all ids) st u =
    remove_all-IsKeyed (sort_ids st.tokens ids).revoked_ids st.tokens u
step-IsKeyed (consuming r) st u = elim (Result-cases (consume r st)) [
  | inr (x, failed) ↦ rw failed u
  | inl ((d, st'), done) ↦
      let (id, w, found, fresh, after) = consume-tokens r st d st' done in
      rw done (subst IsKeyed (sym after) (put-IsKeyed id (consumed_token r.now d w) st.tokens u))
]
step-IsKeyed (resolving now token_hash) st u =
    subst IsKeyed (sym (resolve-tokens now token_hash st)) u
