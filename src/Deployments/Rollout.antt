-- ===== src/Deployments/Rollout.antt =====
-- What a device is told, from the deployment to its report.
use rebooter_droids.Base.{
  ℕ, String, Bool, true, false, not, ◌&&◌, Option, none, some, List, ◌==◌, ◌≡◌, refl, arith, eq_iff,
  ap, ◌∙◌, if◌then◌else◌, inl, inr, Bool-cases, Option-cases,
}
use rebooter_droids.Base.Result.{ok}
use rebooter_droids.Base.Table.{get, put}
use rebooter_droids.Base.Table.Keyed.{get-append_row}
use rebooter_droids.Base.Text.{strip}
use rebooter_droids.Base.Json.{codes, codes_eq}
use rebooter_droids.Deployments.Types.{
  FirmwareRelease, FirmwareDeployment, DeploymentAssignment, State, Fleet, is_active, active_for,
}
use rebooter_droids.Deployments.Create.{
  Request, Minted, text_or_empty, is_in, supersede, new_deployment, channel_or, create_deployment,
}
use rebooter_droids.Deployments.Device.{
  newest, Offer, offer_of, offer_found, assignment_for_device, normalized, on_target, reconciled,
  reconcile_reported_version,
}
use rebooter_droids.Deployments.Actives.{actives-supersede, actives-put, newest-get}
use rebooter_droids.Deployments.Newest.{newest-actives, newest-assign_all, newest-put}
use rebooter_droids.Deployments.Single.{
  IsDistinct, HasSingle, create_deployment-IsCreated, times-targets,
}

-- What the deployment of a release offers a device.
abbrev pub new_offer : Minted → Request → FirmwareRelease → String → Offer
new_offer m r release d = record {
  assignment_id = m.assignment_id d;
  deployment_id = m.deployment_id;
  channel = channel_or release.channel r.channel;
  target_version = release.version;
  download_url = release.download_url;
  sha256 = release.sha256;
  force = r.force;
}

-- Once a deployment is created, each device that it targets is told of its release, whatever
-- assignments the device had before.
pub create_deployment-offer :
    (m : Minted) (r : Request) (fleet : Fleet) (st st' : State) (ids : List String)
    (release : FirmwareRelease) (d : String)
    → IsDistinct fleet
    → get r.release_id st.releases ≡ some release
    → create_deployment m r fleet st ≡ ok (ids, st')
    → is_in ids d ≡ true
    → assignment_for_device d st' ≡ some (new_offer m r release d)
unfolding assignment_for_device
create_deployment-offer m r fleet st st' ids release d distinct released e here =
    let c = create_deployment-IsCreated m r fleet st ids st' e in
    let old = supersede m.now ids st.assignments in
    let once =
      times-targets fleet r.target_type (text_or_empty r.target_id) ids d distinct c.targeted in
    let nothing : newest (active_for d) old ≡ none =
      newest-actives d old (ground (arith, actives-supersede m.now ids d st.assignments, here)) in
    let found = newest-assign_all m r d ids old st'.assignments nothing here once c.assigned in
    let deployed : get m.deployment_id st'.deployments ≡ some (new_deployment m r release) =
      ground (
        arith,
        c.deployments,
        c.released,
        released,
        eq_iff m.deployment_id m.deployment_id,
        get-append_row m.deployment_id m.deployment_id (new_deployment m r c.release) st.deployments
            c.fresh,
      ) in
    rw found (ground (arith, deployed, c.releases, released))

-- The report's version, without the white space around it, is that of the offer.
abbrev pub reaches : Option (List ℕ) → Offer → Bool
reaches none offer = false
reaches (some v) offer = codes_eq v (strip (codes offer.target_version))

module _ (now : ℕ) (reported error_message : Option String) (release : Option FirmwareRelease)
    (a : DeploymentAssignment) where
  abbrev after : DeploymentAssignment
  after = reconciled now reported error_message release a

  -- A report keeps what the row is about, and ends it if the version is reached.
  after_kept :
      (after.device_id ≡ a.device_id)
      × (after.release_id ≡ a.release_id)
      × (after.deployment_id ≡ a.deployment_id)
      × (after.created_at ≡ a.created_at)
  after_kept = (ground arith, ground arith, ground arith, ground arith)

  is_active-after :
      is_active after.state ≡ (not (on_target (normalized reported) release) && is_active a.state)
  is_active-after = ground arith

reaches-on_target :
    (v : Option (List ℕ)) (i : String) (a : DeploymentAssignment) (release : Option FirmwareRelease)
    (deployment : Option FirmwareDeployment) (offer : Offer)
    → offer_of i a release deployment ≡ some offer
    → reaches v offer ≡ on_target v release
reaches-on_target v i a none deployment offer e = cc
reaches-on_target v i a (some r) none offer e = cc
reaches-on_target none i a (some r) (some w) offer e = refl
reaches-on_target (some v) i a (some r) (some w) offer e = ground (arith, e)

offer_of-kept :
    (i : String) (a b : DeploymentAssignment) (release : Option FirmwareRelease)
    (deployment : Option FirmwareDeployment)
    → b.deployment_id ≡ a.deployment_id
    → offer_of i b release deployment ≡ offer_of i a release deployment
offer_of-kept i a b none deployment same = refl
offer_of-kept i a b (some r) none same = refl
offer_of-kept i a b (some r) (some w) same = cc

offer_found-kept :
    (st : State) (i : String) (a b : DeploymentAssignment)
    → b.release_id ≡ a.release_id
    → b.deployment_id ≡ a.deployment_id
    → offer_found st (some (i, b)) ≡ offer_found st (some (i, a))
offer_found-kept st i a b release deployment =
    offer_of-kept i a b (get b.release_id st.releases) (get b.deployment_id st.deployments)
      deployment
    ∙ ap (λ r. offer_of i a (get r st.releases) (get b.deployment_id st.deployments)) release
    ∙ ap (λ w. offer_of i a (get a.release_id st.releases) (get w st.deployments)) deployment

-- A report of the offered version ends the offer, and any other report leaves it as it was, if no
-- device has more than one active assignment.
pub report-offer :
    (now : ℕ) (d : String) (reported error_message : Option String) (st : State) (offer : Offer)
    → HasSingle st
    → (d == "") ≡ false
    → assignment_for_device d st ≡ some offer
    → assignment_for_device d (reconcile_reported_version now d reported error_message st)
      ≡ (if reaches (normalized reported) offer then none else some offer)
unfolding assignment_for_device reconcile_reported_version
report-offer now d reported error_message st offer h named e =
    elim (Option-cases (newest (active_for d) st.assignments)) [
      | inl nothing ↦ let no : true ≡ false = ground (arith, nothing, e) in cc no
      | inr ((i, a), found) ↦
          let release = get a.release_id st.releases in
          let new = reconciled now reported error_message release a in
          let (there, passes) = newest-get (active_for d) st.assignments i a h.keyed found in
          let kept = after_kept now reported error_message release a in
          let active = is_active-after now reported error_message release a in
          let offered : offer_found st (some (i, a)) ≡ some offer = ground (arith, found, e) in
          let reaching =
            reaches-on_target (normalized reported) i a release (get a.deployment_id st.deployments)
              offer offered in
          let rest = put i new st.assignments in
          elim (Bool-cases (on_target (normalized reported) release)) [
            | inl reached ↦
                let gone : newest (active_for d) rest ≡ none = newest-actives d rest (
                  ground (
                    arith,
                    actives-put d i new a st.assignments there,
                    h.single d,
                    passes,
                    active,
                    reached,
                    kept,
                  )) in
                rw named (rw found (rw gone (rw reaching (rw reached refl))))
            | inr missed ↦
                let still : newest (active_for d) rest ≡ some (i, new) =
                  newest-put (active_for d) st.assignments i new a h.keyed found
                    (ground (arith, passes, active, missed, kept)) kept.3 in
                let last : some offer
                    ≡ (if reaches (normalized reported) offer then none else some offer) =
                  rw reaching (rw missed refl) in
                rw named
                  (rw found (rw still (offer_found-kept st i a new kept.1 kept.2 ∙ offered ∙ last)))
          ]
    ]
