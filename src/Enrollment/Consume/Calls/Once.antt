-- ===== src/Enrollment/Consume/Calls/Once.antt =====
-- A token is redeemed once.
use rebooter_droids.Base.{
  ◌≤◌, String, List, [], ◌∷◌, ◌==◌, ◌≡◌, ◌⊎◌, inl, inr, refl, arith, eq_iff, Bool-cases,
}
use rebooter_droids.Base.Result.{Result-cases}
use rebooter_droids.Base.Table.Keyed.{IsKeyed}
use rebooter_droids.Enrollment.Types.{State}
use rebooter_droids.Enrollment.Consume.{consumed_token, consume}
use rebooter_droids.Enrollment.Consume.Calls.{
  Call, minting, revoking, revoking_all, consuming, resolving, step, redemption_of, redemptions,
}
use rebooter_droids.Enrollment.Consume.Calls.Writes.{consume-tokens, step-IsKeyed}
use rebooter_droids.Enrollment.Consume.Calls.Spent.{redemptions_spent, consume-spends}

-- A call redeems the token not at all, or once and for all.
first_redemption :
    (hash : String) (c : Call) (cs : List Call) (st : State)
    → IsKeyed st.tokens
    → (redemption_of hash c st ≡ 0)
      ⊎ ((redemption_of hash c st ≡ 1) × (redemptions hash cs (step c st) ≡ 0))
first_redemption hash (minting default_ttl now id token_hash r) cs st u = inl refl
first_redemption hash (revoking id) cs st u = inl refl
first_redemption hash (revoking_all ids) cs st u = inl refl
first_redemption hash (resolving now token_hash) cs st u = inl refl
first_redemption hash (consuming r) cs st u = elim (Bool-cases (r.token_hash == hash)) [
  | inr other ↦ inl (ground (arith, other))
  | inl same ↦ elim (Result-cases (consume r st)) [
    | inr (x, failed) ↦ inl (ground (arith, same, failed))
    | inl ((d, st'), done) ↦
        let (id, w, found, fresh, after) = consume-tokens r st d st' done in
        let spent = consume-spends r st d st' id w u found after in
        let none_later =
          redemptions_spent r.token_hash id (consumed_token r.now d w) cs st' spent in
        inr (
          ground (arith, same, done),
          ground (arith, done, none_later, eq_iff r.token_hash hash, same),
        )
  ]
]

-- Whatever is minted, revoked and redeemed, in any order and with any payloads, a token registers
-- at most one device.
pub redemptions-le_one :
    (hash : String) (cs : List Call) (st : State) → IsKeyed st.tokens → redemptions hash cs st ≤ 1
unfolding redemptions
redemptions-le_one hash [] st u = omega arith
redemptions-le_one hash (c ∷ cs) st u = omega (
  arith,
  first_redemption hash c cs st u,
  redemptions-le_one hash cs (step c st) (step-IsKeyed c st u),
)
