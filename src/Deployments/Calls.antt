-- ===== src/Deployments/Calls.antt =====
-- The calls on the deployments, in any order: each is a transaction, and one step here. A call that
-- raises leaves the tables as they were.
use rebooter_droids.Base.{ℕ, String, Option, List, [], ◌∷◌}
use rebooter_droids.Base.Result.{Result, ok, err}
use rebooter_droids.Deployments.Types.{State, Fleet}
use rebooter_droids.Deployments.Create.{DeploymentError, Request, Minted, create_deployment}
use rebooter_droids.Deployments.Device.{firmware_assignment, reconcile_reported_version}

pub data Call : Type 0 where
  creating : Minted → Request → Fleet → Call
  fetching : ℕ → String → Call
  reporting : ℕ → String → Option String → Option String → Call

abbrev pub state_or : State → Result DeploymentError (List String × State) → State
state_or st (ok (ids, st')) = st'
state_or st (err e) = st

abbrev pub step : Call → State → State
step (creating m r fleet) st = state_or st (create_deployment m r fleet st)
step (fetching now d) st = (firmware_assignment now d st).1
step (reporting now d version error_message) st =
    reconcile_reported_version now d version error_message st

abbrev pub run : List Call → State → State
run [] st = st
run (c ∷ cs) st = run cs (step c st)
