-- ===== src/Enrollment/Tokens/Lookup.antt =====
-- How a token is found in the table, once rows are added, changed and removed.
use rebooter_droids.Base.{
  String, true, Option, none, some, List, [], ◌∷◌, ◌++◌, ◌≡◌, ◌≢◌, inl, inr, refl, arith, eq_iff,
  is_some, Bool-cases, All,
}
use rebooter_droids.Base.Table.{Table, get, put, remove}
use rebooter_droids.Base.Table.Keyed.{IsKeyed}
use rebooter_droids.Enrollment.Types.{EnrollmentToken, find_token}
use rebooter_droids.Enrollment.Tokens.{remove_all, sort_id, sort_ids, Bulk}

module _ (hash : String) where
  pub find_token-append :
      (t u : Table EnrollmentToken) (i : String) (et : EnrollmentToken)
      → find_token hash t ≡ some (i, et)
      → find_token hash (t ++ u) ≡ some (i, et)
  unfolding find_token
  find_token-append [] u i et e = cc
  find_token-append ((j, w) ∷ t) u i et e = ground (arith, e, find_token-append t u i et)

  pub find_token-remove :
      (id : String) (t : Table EnrollmentToken) (i : String) (et : EnrollmentToken)
      → id ≢ i
      → find_token hash t ≡ some (i, et)
      → find_token hash (remove id t) ≡ some (i, et)
  unfolding find_token remove
  find_token-remove id [] i et other e = cc
  find_token-remove id ((j, w) ∷ t) i et other e =
      ground (arith, e, eq_iff j id, other, find_token-remove id t i et other)

  pub get-find_token :
      (t : Table EnrollmentToken) (i : String) (et : EnrollmentToken)
      → IsKeyed t
      → find_token hash t ≡ some (i, et)
      → get i t ≡ some et
  unfolding find_token get
  get-find_token [] i et u e = cc
  get-find_token ((j, w) ∷ t) i et (fresh, u) e =
      ground (arith, e, eq_iff j i, fresh, get-find_token t i et u)

  pub find_token-put_other :
      (id : String) (new old : EnrollmentToken) (t : Table EnrollmentToken) (i : String)
      (et : EnrollmentToken)
      → id ≢ i
      → get id t ≡ some old
      → new.token_hash ≡ old.token_hash
      → find_token hash t ≡ some (i, et)
      → find_token hash (put id new t) ≡ some (i, et)
  unfolding find_token put get
  find_token-put_other id new old [] i et other there same e = cc
  find_token-put_other id new old ((j, w) ∷ t) i et other there same e =
      ground
        (arith, e, eq_iff j id, other, same, there, find_token-put_other id new old t i et other)

  pub find_token-put :
      (new : EnrollmentToken) (t : Table EnrollmentToken) (i : String) (et : EnrollmentToken)
      → IsKeyed t
      → new.token_hash ≡ et.token_hash
      → find_token hash t ≡ some (i, et)
      → find_token hash (put i new t) ≡ some (i, new)
  unfolding find_token put
  find_token-put new [] i et u same e = cc
  find_token-put new ((j, w) ∷ t) i et (fresh, u) same e =
      ground (
        arith,
        e,
        eq_iff j i,
        fresh,
        same,
        get-find_token t i et u,
        find_token-put new t i et u same,
      )

  pub find_token-remove_all :
      (ids : List String) (t : Table EnrollmentToken) (i : String) (et : EnrollmentToken)
      → All (λ id. id ≢ i) ids
      → find_token hash t ≡ some (i, et)
      → find_token hash (remove_all ids t) ≡ some (i, et)
  unfolding remove_all
  find_token-remove_all [] t i et others e = e
  find_token-remove_all (id ∷ ids) t i et (other, others) e =
      find_token-remove_all ids (remove id t) i et others (find_token-remove id t i et other e)

sort_id-unconsumed :
    (t : Table EnrollmentToken) (id i : String) (et : EnrollmentToken) (o : Option EnrollmentToken)
    (b : Bulk)
    → get i t ≡ some et
    → is_some et.consumed_at ≡ true
    → get id t ≡ o
    → All (λ j. j ≢ i) b.revoked_ids
    → All (λ j. j ≢ i) (sort_id id o b).revoked_ids
sort_id-unconsumed t id i et none b there used here others = others
sort_id-unconsumed t id i et (some w) b there used here others =
    elim (Bool-cases (is_some w.consumed_at)) [
      | inl spent ↦ simp spent others
      | inr unspent ↦
          simp unspent ((λ same. ground (arith, same, there, here, used, unspent)), others)
    ]

-- The bulk call revokes no token that is consumed.
pub sort_ids-unconsumed :
    (t : Table EnrollmentToken) (ids : List String) (i : String) (et : EnrollmentToken)
    → get i t ≡ some et
    → is_some et.consumed_at ≡ true
    → All (λ id. id ≢ i) (sort_ids t ids).revoked_ids
unfolding sort_ids
sort_ids-unconsumed t [] i et there used = tt
sort_ids-unconsumed t (id ∷ ids) i et there used =
    sort_id-unconsumed t id i et (get id t) (sort_ids t ids) there used refl
      (sort_ids-unconsumed t ids i et there used)
