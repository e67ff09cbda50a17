-- ===== src/Deployments/Create.antt =====
-- `create_deployment` of app/services/deployments.py. The database takes no id twice.
use rebooter_droids.Base.{
  ℕ, String, Bool, false, not, ◌&&◌, ◌||◌, Option, none, some, List, [], ◌∷◌, ◌++◌, ◌==◌, is_some,
  if◌then◌else◌, any,
}
use rebooter_droids.Base.Result.{Result, ok, err, ◌>>=◌, ◌>>◌, require}
use rebooter_droids.Base.Table.{Table, get, update}
use rebooter_droids.Deployments.Types.{
  pending, superseded, FirmwareRelease, FirmwareDeployment, DeploymentAssignment, State, Fleet,
  is_active,
}

-- What `create_deployment` raises: `ValueError`, `LookupError`, and the refusal of an id.
pub data DeploymentError : Type 0 where
  bad_target_type target_id_required taken_id : DeploymentError
  unknown : String → DeploymentError

pub record Request : Type 0 where
  pub release_id : String
  pub target_type : String
  pub target_id : Option String
  pub channel : Option String
  pub force : Bool
  pub issued_by_user_id : Option String

-- The time, and the ids of the new rows, that of an assignment by its device.
pub record Minted : Type 0 where
  pub now : ℕ
  pub deployment_id : String
  pub assignment_id : String → String

-- `target_type in ALLOWED_TARGET_TYPES`
abbrev pub is_allowed : String → Bool
is_allowed t = t == "device" || t == "group" || t == "site" || t == "all_devices"

abbrev pub text_or_empty : Option String → String
text_or_empty none = ""
text_or_empty (some s) = s

abbrev pub channel_or : String → Option String → String
channel_or default none = default
channel_or default (some c) = if c == "" then default else c

abbrev pub new_deployment : Minted → Request → FirmwareRelease → FirmwareDeployment
new_deployment m r release = record {
  release_id = r.release_id;
  target_type = r.target_type;
  target_id = r.target_id;
  channel = channel_or release.channel r.channel;
  force = r.force;
  issued_by_user_id = r.issued_by_user_id;
  created_at = m.now;
}

unfoldable pub members_of : String → List (String × String) → List String
members_of g [] = []
members_of g ((h, d) ∷ rest) = let later = members_of g rest in if h == g then d ∷ later else later

abbrev pub is_at : String → Option String → Bool
is_at site none = false
is_at site (some s) = s == site

unfoldable pub devices_at : String → Table (Option String) → List String
devices_at site [] = []
devices_at site ((d, s) ∷ rest) =
    let later = devices_at site rest in if is_at site s then d ∷ later else later

unfoldable pub all_ids : Table (Option String) → List String
all_ids [] = []
all_ids ((d, s) ∷ rest) = d ∷ all_ids rest

-- `device_ids`, on the id that the target needs
unfoldable pub targets : Fleet → String → String → Result DeploymentError (List String)
targets fleet target_type target_id =
    if target_type == "device"
    then (if is_some (get target_id fleet.devices)
        then ok (target_id ∷ [])
        else err (unknown target_id))
    else if target_type == "group"
    then ok (members_of target_id fleet.memberships)
    else if target_type == "site"
    then ok (devices_at target_id fleet.devices)
    else ok (all_ids fleet.devices)

abbrev pub is_in : List String → String → Bool
is_in ids d = any (λ i. i == d) ids

abbrev pub supersede_one : ℕ → List String → DeploymentAssignment → DeploymentAssignment
supersede_one now ids a =
    if is_in ids a.device_id && is_active a.state
    then record a { state = superseded; updated_at = now }
    else a

-- The update of the assignments that the devices have.
unfoldable pub supersede : ℕ → List String → Table DeploymentAssignment → Table DeploymentAssignment
supersede now ids t = update (λ id a. supersede_one now ids a) t

abbrev pub new_assignment : Minted → Request → String → DeploymentAssignment
new_assignment m r d = record {
  deployment_id = m.deployment_id;
  release_id = r.release_id;
  device_id = d;
  state = pending;
  last_reported_version = none;
  error_message = none;
  created_at = m.now;
  updated_at = m.now;
}

unfoldable pub assign_all :
    Minted
    → Request
    → List String
    → Table DeploymentAssignment
    → Result DeploymentError (Table DeploymentAssignment)
assign_all m r [] t = ok t
assign_all m r (d ∷ ds) t = do
  require (not (is_some (get (m.assignment_id d) t))) taken_id
  assign_all m r ds (t ++ (m.assignment_id d, new_assignment m r d) ∷ [])

-- The transaction, on the release; the result has the number of devices in the source.
abbrev pub create_for :
    Minted
    → Request
    → Fleet
    → State
    → Option FirmwareRelease
    → Result DeploymentError (List String × State)
create_for m r fleet st none = err (unknown r.release_id)
create_for m r fleet st (some release) = do
  require (not (is_some (get m.deployment_id st.deployments))) taken_id
  ids ← targets fleet r.target_type (text_or_empty r.target_id)
  assigned ← assign_all m r ids (supersede m.now ids st.assignments)
  ok (
    ids,
    record st {
      deployments = st.deployments ++ (m.deployment_id, new_deployment m r release) ∷ [];
      assignments = assigned;
    },
  )

-- The devices that are targeted, and the state afterwards.
unfoldable pub create_deployment :
    Minted → Request → Fleet → State → Result DeploymentError (List String × State)
create_deployment m r fleet st = do
  require (is_allowed r.target_type) bad_target_type
  require (r.target_type == "all_devices" || not (text_or_empty r.target_id == ""))
      target_id_required
  create_for m r fleet st (get r.release_id st.releases)
