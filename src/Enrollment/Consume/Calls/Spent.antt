-- ===== src/Enrollment/Consume/Calls/Spent.antt =====
-- A token that is consumed stays so, whatever is called.
use rebooter_droids.Base.{
  ℕ, String, Bool, true, false, some, List, [], ◌∷◌, ◌≡◌, ◌≢◌, inl, inr, refl, arith, eq_iff,
  is_some, Option-cases, ◌∙◌, subst, sym, ap, if_split,
}
use rebooter_droids.Base.Result.{Result-cases}
use rebooter_droids.Base.Table.{get, put, remove}
use rebooter_droids.Base.Table.Keyed.{IsKeyed, put-IsKeyed, remove-IsKeyed, append_row-IsKeyed}
use rebooter_droids.Enrollment.Types.{EnrollmentToken, State, find_token}
use rebooter_droids.Enrollment.Tokens.{
  MintRequest, mint, minted, new_token, revoke_token, revoke_tokens_bulk, sort_ids,
}
use rebooter_droids.Enrollment.Tokens.Lookup.{
  find_token-append, find_token-remove, get-find_token, find_token-put_other, find_token-put,
  find_token-remove_all, sort_ids-unconsumed,
}
use rebooter_droids.Enrollment.Consume.{Redemption, consumed_token, consume}
use rebooter_droids.Enrollment.Consume.Calls.{
  Call, minting, revoking, revoking_all, consuming, resolving, or_same, state_or, step, success,
  redemption_of, redemptions,
}
use rebooter_droids.Enrollment.Consume.Calls.Writes.{
  consume-tokens, resolve-tokens, remove_all-IsKeyed,
}

-- The token that a hash finds is this row, which is consumed.
pub record IsSpent (hash i : String) (et : EnrollmentToken) (st : State) : Type 0 where
  pub keyed : IsKeyed st.tokens
  pub found : find_token hash st.tokens ≡ some (i, et)
  pub spent : is_some et.consumed_at ≡ true

module _ (hash i : String) (et : EnrollmentToken) where
  -- A redemption of a spent token fails.
  consume-IsSpent_err :
      (r : Redemption) (st : State)
      → IsSpent hash i et st
      → r.token_hash ≡ hash
      → success (consume r st) ≡ 0
  consume-IsSpent_err r st h same = elim (Result-cases (consume r st)) [
    | inr (x, failed) ↦ rw failed refl
    | inl ((d, st'), done) ↦
        let (id, w, found, fresh, after) = consume-tokens r st d st' done in
        cc (found, fresh, h.found, h.spent, same)
  ]

  consume-IsSpent :
      (r : Redemption) (st : State)
      → IsSpent hash i et st
      → IsSpent hash i et (state_or st (consume r st))
  consume-IsSpent r st h = elim (Result-cases (consume r st)) [
    | inr (x, failed) ↦ rw failed h
    | inl ((d, st'), done) ↦
        let (id, w, found, fresh, after) = consume-tokens r st d st' done in
        let new = consumed_token r.now d w in
        let there = get-find_token r.token_hash st.tokens id w h.keyed found in
        let here = get-find_token hash st.tokens i et h.keyed h.found in
        let other : id ≢ i = λ same. ground (arith, there, here, same, fresh, h.spent) in
        rw done (record {
          keyed = subst IsKeyed (sym after) (put-IsKeyed id new st.tokens h.keyed);
          found =
              ap (find_token hash) after
              ∙ find_token-put_other hash id new w st.tokens i et other there refl h.found;
          spent = h.spent;
        })
  ]

  revoke-IsSpent :
      (id : String) (st : State) → IsSpent hash i et st → IsSpent hash i et (revoke_token id st).1
  unfolding revoke_token
  revoke-IsSpent id st h = elim (Option-cases (get id st.tokens)) [
    | inl unknown ↦ rw unknown h
    | inr (w, there) ↦
        let here = get-find_token hash st.tokens i et h.keyed h.found in
        rw there (
          if_split (λ (out : Bool × State). IsSpent hash i et out.1) (is_some w.consumed_at)
            (false, st) (true, record st { tokens = remove id st.tokens }) (λ used. h)
            (λ unused. record {
              keyed = remove-IsKeyed id st.tokens h.keyed;
              found =
                  find_token-remove hash id st.tokens i et
                    (λ same. ground (arith, there, here, same, unused, h.spent)) h.found;
              spent = h.spent;
            }))
  ]

  revoke_all-IsSpent :
      (ids : List String) (st : State)
      → IsSpent hash i et st
      → IsSpent hash i et (revoke_tokens_bulk ids st).1
  unfolding revoke_tokens_bulk
  revoke_all-IsSpent ids st h =
      let here = get-find_token hash st.tokens i et h.keyed h.found in
      let gone = (sort_ids st.tokens ids).revoked_ids in
      record {
        keyed = remove_all-IsKeyed gone st.tokens h.keyed;
        found =
            find_token-remove_all hash gone st.tokens i et
              (sort_ids-unconsumed st.tokens ids i et here h.spent) h.found;
        spent = h.spent;
      }

  mint-IsSpent :
      (default_ttl now : ℕ) (id token_hash : String) (r : MintRequest) (st : State)
      → IsSpent hash i et st
      → IsSpent hash i et (or_same st (mint default_ttl now id token_hash r st))
  unfolding mint
  mint-IsSpent default_ttl now id token_hash r st h = elim (Option-cases (get id st.tokens)) [
    | inr (w, taken) ↦ rw taken h
    | inl free ↦
        let st' = minted default_ttl now id token_hash r st in
        rw free (record {
          keyed =
              append_row-IsKeyed id (new_token default_ttl now token_hash r st) st.tokens free
                h.keyed;
          found =
              find_token-append hash st.tokens
                ((id, new_token default_ttl now token_hash r st) ∷ []) i et h.found;
          spent = h.spent;
        })
  ]

  step-IsSpent : (c : Call) (st : State) → IsSpent hash i et st → IsSpent hash i et (step c st)
  step-IsSpent (minting default_ttl now id token_hash r) st h =
      mint-IsSpent default_ttl now id token_hash r st h
  step-IsSpent (revoking id) st h = revoke-IsSpent id st h
  step-IsSpent (revoking_all ids) st h = revoke_all-IsSpent ids st h
  step-IsSpent (consuming r) st h = consume-IsSpent r st h
  step-IsSpent (resolving now token_hash) st h =
      let same = resolve-tokens now token_hash st in
      record {
        keyed = subst IsKeyed (sym same) h.keyed;
        found = ap (find_token hash) same ∙ h.found;
        spent = h.spent;
      }

  redemption_spent : (c : Call) (st : State) → IsSpent hash i et st → redemption_of hash c st ≡ 0
  redemption_spent (minting default_ttl now id token_hash r) st h = refl
  redemption_spent (revoking id) st h = refl
  redemption_spent (revoking_all ids) st h = refl
  redemption_spent (resolving now token_hash) st h = refl
  redemption_spent (consuming r) st h =
      ground (arith, eq_iff r.token_hash hash, consume-IsSpent_err r st h)

  pub redemptions_spent :
      (cs : List Call) (st : State) → IsSpent hash i et st → redemptions hash cs st ≡ 0
  unfolding redemptions
  redemptions_spent [] st h = refl
  redemptions_spent (c ∷ cs) st h =
      omega (arith, redemption_spent c st h, redemptions_spent cs (step c st) (step-IsSpent c st h))

-- A redemption that succeeds spends its token.
pub consume-spends :
    (r : Redemption) (st : State) (d : String) (st' : State) (id : String) (et : EnrollmentToken)
    → IsKeyed st.tokens
    → find_token r.token_hash st.tokens ≡ some (id, et)
    → st'.tokens ≡ put id (consumed_token r.now d et) st.tokens
    → IsSpent r.token_hash id (consumed_token r.now d et) st'
consume-spends r st d st' id et u found after = record {
  keyed = subst IsKeyed (sym after) (put-IsKeyed id (consumed_token r.now d et) st.tokens u);
  found =
      ap (find_token r.token_hash) after
      ∙ find_token-put r.token_hash (consumed_token r.now d et) st.tokens id et u refl found;
  spent = refl;
}
