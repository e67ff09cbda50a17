-- ===== src/Accounts/Stamps.antt =====
-- The user's cutoff, and the operations that stamp it.
use rebooter_droids.Base.{
  ℕ, ◌≤◌, String, Bool, true, false, ◌&&◌, Option, none, some, ◌==◌, ◌≡◌, refl, arith, eq_iff, inl,
  inr, Bool-cases, Option-cases,
}
use rebooter_droids.Base.Result.{ok, is_ok}
use rebooter_droids.Base.Table.{get, put, get-put}
use rebooter_droids.Accounts.Types.{User, State}
use rebooter_droids.Accounts.Users.{
  save, change_own_password, consume_reset, find_reset, reset_user,
}
use rebooter_droids.Accounts.Calls.{
  Operation, deactivating, revoking_tokens, changing_password, resetting,
}

-- A reset of the user's password that succeeds.
abbrev pub is_for : String → Option (String × State) → Bool
is_for id none = false
is_for id (some (j, st')) = j == id

-- Whether the operation revokes what the user was issued before.
abbrev pub revokes : ℕ → String → Operation → State → Bool
revokes now id (deactivating j) st = j == id
revokes now id (revoking_tokens j) st = j == id
revokes now id (changing_password verifies j current new new_hash) st =
    j == id && is_ok (change_own_password verifies now j current new new_hash st)
revokes now id (resetting token token_hash new_password new_hash ip) st =
    is_for id (consume_reset now token token_hash new_password new_hash ip st)
revokes now id _ st = false

-- The user's cutoff is not before the instant.
abbrev pub CutAt : String → ℕ → State → Type 0
CutAt id t st = (u : User) → get id st.users ≡ some u → t ≤ u.tokens_valid_after

-- A row that is written keeps the cutoff, or makes it where it is the user's own.
pub save-CutAt :
    (id : String) (t : ℕ) (j : String) (new : User) (st : State)
    → ((j == id) ≡ false → CutAt id t st)
    → ((j == id) ≡ true → t ≤ new.tokens_valid_after)
    → CutAt id t (save j new st)
save-CutAt id t j new st others own u e = elim (Bool-cases (j == id)) [
  | inl same ↦ ground (arith, e, same, own same, get-put j id new st.users)
  | inr other ↦ others other u (ground (arith, e, other, get-put j id new st.users))
]

-- A user that is not there has any cutoff.
pub missing-CutAt :
    (id : String) (t : ℕ) (j : String) (st : State)
    → get j st.users ≡ none
    → ((j == id) ≡ false → CutAt id t st)
    → CutAt id t st
missing-CutAt id t j st missing others u e = elim (Bool-cases (j == id)) [
  | inl same ↦ let no : true ≡ false = ground (arith, e, missing, same, eq_iff j id) in cc no
  | inr other ↦ others other u e
]

-- The users after a change that succeeds: one row is written, stamped with the instant.
abbrev Stamped : ℕ → String → State → State → Type 0
Stamped now j st st' = (u : User) × (st'.users ≡ put j u st.users) × (u.tokens_valid_after ≡ now)

pub change_own_password-Stamped :
    (verifies : String → Bool) (now : ℕ) (j current new new_hash : String) (st st' : State)
    → change_own_password verifies now j current new new_hash st ≡ ok st'
    → Stamped now j st st'
unfolding change_own_password
change_own_password-Stamped verifies now j current new new_hash st st' e =
    elim (Option-cases (get j st.users)) [
      | inl missing ↦ let no : true ≡ false = ground (arith, e, missing) in cc no
      | inr (w, there) ↦ (
        record w { password_hash = new_hash; updated_at = now; tokens_valid_after = now },
        ground (arith, e, there),
        refl,
      )
    ]

pub consume_reset-Stamped :
    (now : ℕ) (token token_hash new_password new_hash : String) (ip : Option String) (st : State)
    (j : String) (st' : State)
    → consume_reset now token token_hash new_password new_hash ip st ≡ some (j, st')
    → Stamped now j st st'
unfolding consume_reset
consume_reset-Stamped now token token_hash new_password new_hash ip st j st' e =
    elim (Option-cases (find_reset token_hash st.resets)) [
      | inl unknown ↦ let no : true ≡ false = ground (arith, e, unknown) in cc no
      | inr ((id, rec), found) ↦ elim (Option-cases (get rec.user_id st.users)) [
        | inl missing ↦ let no : true ≡ false = ground (arith, e, found, missing) in cc no
        | inr (w, there) ↦ (reset_user now new_hash w, ground (arith, e, found, there), refl)
      ]
    ]

pub Stamped-CutAt :
    (id : String) (t now : ℕ) (j : String) (st st' : State)
    → t ≤ now
    → Stamped now j st st'
    → ((j == id) ≡ false → CutAt id t st)
    → CutAt id t st'
Stamped-CutAt id t now j st st' le (new, after, stamp) h u e =
    save-CutAt id t j new st h (λ same. ground (arith, stamp, le)) u (ground (arith, after, e))
