-- ===== src/Enrollment/Consume/Calls.antt =====
-- The calls on the tokens, in any order.
pub mod Writes
pub mod Spent
pub mod Once
use rebooter_droids.Base.{
  ℕ, zero, suc, ◌+◌, String, Bool, true, false, Option, none, some, List, [], ◌∷◌, ◌==◌,
  if◌then◌else◌,
}
use rebooter_droids.Base.Result.{Result, ok, err}
use rebooter_droids.Enrollment.Types.{State}
use rebooter_droids.Enrollment.Payload.{EnrollmentError}
use rebooter_droids.Enrollment.Tokens.{MintRequest, mint, revoke_token, revoke_tokens_bulk}
use rebooter_droids.Enrollment.Consume.{Redemption, consume}
use rebooter_droids.Enrollment.Auth.{resolve_device}

pub data Call : Type 0 where
  minting : ℕ → ℕ → String → String → MintRequest → Call
  revoking : String → Call
  revoking_all : List String → Call
  consuming : Redemption → Call
  resolving : ℕ → String → Call

abbrev pub or_same {ℓ} : {A : Type ℓ} → A → Option A → A
or_same a none = a
or_same a (some b) = b

abbrev pub state_or : State → Result EnrollmentError (String × State) → State
state_or st (ok (device_id, st')) = st'
state_or st (err e) = st

abbrev pub resolved_or : State → Option (String × Option String × State) → State
resolved_or st none = st
resolved_or st (some (device_id, org, st')) = st'

abbrev pub step : Call → State → State
step (minting default_ttl now id hash r) st = or_same st (mint default_ttl now id hash r st)
step (revoking id) st = (revoke_token id st).1
step (revoking_all ids) st = (revoke_tokens_bulk ids st).1
step (consuming r) st = state_or st (consume r st)
step (resolving now hash) st = resolved_or st (resolve_device now hash st)

-- Whether a redemption of the token succeeds, as a number.
abbrev pub success : Result EnrollmentError (String × State) → ℕ
success (ok out) = 1
success (err e) = 0

abbrev pub redemption_of : String → Call → State → ℕ
redemption_of hash (consuming r) st = if r.token_hash == hash then success (consume r st) else 0
redemption_of hash _ st = 0

-- How often the calls redeem the token.
unfoldable pub redemptions : String → List Call → State → ℕ
redemptions hash [] st = 0
redemptions hash (c ∷ cs) st = redemption_of hash c st + redemptions hash cs (step c st)
