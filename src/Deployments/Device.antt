-- ===== src/Deployments/Device.antt =====
-- The device's side of app/services/deployments.py: the assignment that it is told, its delivery,
-- and its completion by a heartbeat. Where two rows were created at the same instant, the database
-- may take either; here it is the first.
use rebooter_droids.Base.{
  ℕ, ltb, String, Bool, true, false, not, ◌||◌, Option, none, some, List, [], ◌∷◌, ◌==◌, is_some,
  if◌then◌else◌,
}
use rebooter_droids.Base.Json.{codes, codes_eq}
use rebooter_droids.Base.Text.{strip, is_nil}
use rebooter_droids.Base.Table.{Table, get, put}
use rebooter_droids.Deployments.Types.{
  delivered, completed, FirmwareRelease, FirmwareDeployment, DeploymentAssignment, State,
  is_completed, active_for, pending_for,
}

abbrev pub later_of :
    String × DeploymentAssignment
    → Option (String × DeploymentAssignment)
    → Option (String × DeploymentAssignment)
later_of row none = some row
later_of (i, a) (some (j, b)) = if ltb a.created_at b.created_at then some (j, b) else some (i, a)

-- `order_by(DeploymentAssignment.created_at.desc()).limit(1)` over the rows that pass
unfoldable pub newest :
    (DeploymentAssignment → Bool)
    → Table DeploymentAssignment
    → Option (String × DeploymentAssignment)
newest p [] = none
newest p ((i, a) ∷ t) = let later = newest p t in if p a then later_of (i, a) later else later

-- What the device is told.
pub record Offer : Type 0 where
  pub assignment_id : String
  pub deployment_id : String
  pub channel : String
  pub target_version : String
  pub download_url : String
  pub sha256 : String
  pub force : Bool

abbrev pub offer_of :
    String
    → DeploymentAssignment
    → Option FirmwareRelease
    → Option FirmwareDeployment
    → Option Offer
offer_of id a none deployment = none
offer_of id a (some release) none = none
offer_of id a (some release) (some deployment) = some (record {
  assignment_id = id;
  deployment_id = a.deployment_id;
  channel = deployment.channel;
  target_version = release.version;
  download_url = release.download_url;
  sha256 = release.sha256;
  force = deployment.force;
})

abbrev pub offer_found : State → Option (String × DeploymentAssignment) → Option Offer
offer_found st none = none
offer_found st (some (id, a)) =
    offer_of id a (get a.release_id st.releases) (get a.deployment_id st.deployments)

unfoldable pub assignment_for_device : String → State → Option Offer
assignment_for_device d st = offer_found st (newest (active_for d) st.assignments)

-- The row, written back.
abbrev pub write : String → DeploymentAssignment → State → State
write id a st = record st { assignments = put id a st.assignments }

abbrev pub deliver_found : ℕ → State → Option (String × DeploymentAssignment) → State
deliver_found now st none = st
deliver_found now st (some (id, a)) = write id (record a { state = delivered; updated_at = now }) st

unfoldable pub mark_assignment_delivered : ℕ → String → State → State
mark_assignment_delivered now d st = deliver_found now st (newest (pending_for d) st.assignments)

abbrev pub deliver_if_offered : ℕ → String → State → Option Offer → State
deliver_if_offered now d st none = st
deliver_if_offered now d st (some offer) = mark_assignment_delivered now d st

-- `GET /firmware` of the device API
unfoldable pub firmware_assignment : ℕ → String → State → Option Offer × State
firmware_assignment now d st =
    let offer = assignment_for_device d st in (offer, deliver_if_offered now d st offer)

abbrev pub non_nil : List ℕ → Option (List ℕ)
non_nil cs = if is_nil cs then none else some cs

-- `(reported_version or "").strip() or None`
abbrev pub normalized : Option String → Option (List ℕ)
normalized none = none
normalized (some v) = non_nil (strip (codes v))

abbrev pub same_codes : Option (List ℕ) → Option (List ℕ) → Bool
same_codes none none = true
same_codes (some a) (some b) = codes_eq a b
same_codes _ _ = false

-- `if normalized_version and target_version and normalized_version == target_version`
abbrev pub on_target : Option (List ℕ) → Option FirmwareRelease → Bool
on_target none release = false
on_target (some v) none = false
on_target (some v) (some release) = codes_eq v (strip (codes release.version))

abbrev pub same_text : Option String → String → Bool
same_text none s = false
same_text (some t) s = t == s

abbrev pub set_version : Option (List ℕ) → DeploymentAssignment × Bool → DeploymentAssignment × Bool
set_version v (a, changed) =
    if same_codes a.last_reported_version v
    then (a, changed)
    else (record a { last_reported_version = v }, true)

abbrev pub set_error : Option String → DeploymentAssignment × Bool → DeploymentAssignment × Bool
set_error none row = row
set_error (some e) (a, changed) =
    if e == "" || same_text a.error_message e
    then (a, changed)
    else (record a { error_message = some e }, true)

abbrev pub complete : Bool → DeploymentAssignment × Bool → DeploymentAssignment × Bool
complete false row = row
complete true (a, changed) = (
  record a { state = completed; error_message = none },
  changed || not (is_completed a.state) || is_some a.error_message,
)

abbrev pub stamp : ℕ → DeploymentAssignment × Bool → DeploymentAssignment
stamp now (a, changed) = if changed then record a { updated_at = now } else a

-- The row after a report.
abbrev pub reconciled :
    ℕ
    → Option String
    → Option String
    → Option FirmwareRelease
    → DeploymentAssignment
    → DeploymentAssignment
reconciled now reported error_message release a = stamp now (
    complete (on_target (normalized reported) release)
      (set_error error_message (set_version (normalized reported) (a, false))))

abbrev pub reconcile_found :
    ℕ → Option String → Option String → State → Option (String × DeploymentAssignment) → State
reconcile_found now reported error_message st none = st
reconcile_found now reported error_message st (some (id, a)) =
    write id (reconciled now reported error_message (get a.release_id st.releases) a) st

unfoldable pub reconcile_reported_version :
    ℕ → String → Option String → Option String → State → State
reconcile_reported_version now d reported error_message st =
    if d == ""
    then st
    else reconcile_found now reported error_message st (newest (active_for d) st.assignments)
