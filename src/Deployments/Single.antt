-- ===== src/Deployments/Single.antt =====
-- No device has two active assignments.
use rebooter_droids.Base.{
  ℕ, ◌≤◌, String, true, false, Option, none, some, List, [], ◌∷◌, ◌++◌, ◌==◌, ◌≡◌, refl, arith,
  eq_iff, is_some, if_cases, inl, inr, Option-cases, All,
}
use rebooter_droids.Base.Result.{Result-cases, ok}
use rebooter_droids.Base.Table.{Table, get}
use rebooter_droids.Base.Table.Keyed.{IsKeyed, put-IsKeyed, update-IsKeyed}
use rebooter_droids.Deployments.Types.{
  FirmwareRelease, DeploymentAssignment, State, Fleet, is_active, active_for, pending_for,
}
use rebooter_droids.Deployments.Create.{
  Request, Minted, text_or_empty, members_of, devices_at, all_ids, targets, supersede,
  supersede_one, assign_all, new_deployment, create_deployment,
}
use rebooter_droids.Deployments.Device.{
  newest, write, mark_assignment_delivered, firmware_assignment, assignment_for_device, reconciled,
  reconcile_reported_version,
}
use rebooter_droids.Deployments.Calls.{Call, creating, fetching, reporting, step, run}
use rebooter_droids.Deployments.Actives.{
  one_if, actives, times, times-is_in, actives-supersede, actives-assign_all, assign_all-IsKeyed,
  actives-put, newest-get,
}

-- The ids of devices are distinct, and so are the members of a group.
pub record IsDistinct (fleet : Fleet) : Type 0 where
  pub keyed : IsKeyed fleet.devices
  pub members : (g d : String) → times d (members_of g fleet.memberships) ≤ 1

times-devices_at :
    (site d : String) (t : Table (Option String))
    → IsKeyed t
    → times d (devices_at site t) ≤ one_if (is_some (get d t))
unfolding times devices_at get
times-devices_at site d [] u = omega arith
times-devices_at site d ((i, s) ∷ t) (fresh, u) =
    ground (arith, fresh, eq_iff i d, times-devices_at site d t u)

times-all_ids :
    (d : String) (t : Table (Option String))
    → IsKeyed t
    → times d (all_ids t) ≤ one_if (is_some (get d t))
unfolding times all_ids get
times-all_ids d [] u = omega arith
times-all_ids d ((i, s) ∷ t) (fresh, u) = ground (arith, fresh, eq_iff i d, times-all_ids d t u)

-- No device is targeted twice.
pub times-targets :
    (fleet : Fleet) (target_type target_id : String) (ids : List String) (d : String)
    → IsDistinct fleet
    → targets fleet target_type target_id ≡ ok ids
    → times d ids ≤ 1
unfolding targets times
times-targets fleet target_type target_id ids d u e = ground (
  arith,
  e,
  u.members target_id d,
  times-devices_at target_id d fleet.devices u.keyed,
  times-all_ids d fleet.devices u.keyed,
)

-- What a creation that succeeds has found and written.
pub record IsCreated (m : Minted) (r : Request) (fleet : Fleet) (st : State) (ids : List String)
    (st' : State) : Type 0 where
  pub release : FirmwareRelease
  pub released : get r.release_id st.releases ≡ some release
  pub fresh : get m.deployment_id st.deployments ≡ none
  pub targeted : targets fleet r.target_type (text_or_empty r.target_id) ≡ ok ids
  pub assigned : assign_all m r ids (supersede m.now ids st.assignments) ≡ ok st'.assignments
  pub releases : st'.releases ≡ st.releases
  pub deployments :
      st'.deployments ≡ st.deployments ++ (m.deployment_id, new_deployment m r release) ∷ []

pub create_deployment-IsCreated :
    (m : Minted) (r : Request) (fleet : Fleet) (st : State) (ids : List String) (st' : State)
    → create_deployment m r fleet st ≡ ok (ids, st')
    → IsCreated m r fleet st ids st'
unfolding create_deployment
create_deployment-IsCreated m r fleet st ids st' e =
    elim (Option-cases (get r.release_id st.releases)) [
      | inl missing ↦ let no : true ≡ false = ground (arith, missing, e) in cc no
      | inr (release, released) ↦
          elim (Result-cases (targets fleet r.target_type (text_or_empty r.target_id))) [
            | inr (x, nowhere) ↦
                let no : true ≡ false = ground (arith, released, nowhere, e) in cc no
            | inl (found, targeted) ↦
                elim (Result-cases (assign_all m r found (supersede m.now found st.assignments))) [
                  | inr (x, taken) ↦
                      let no : true ≡ false = ground (arith, released, targeted, taken, e) in cc no
                  | inl (rows, assigned) ↦
                      let same : found ≡ ids = ground (arith, released, targeted, assigned, e) in
                      record {
                        release = release;
                        released = released;
                        fresh = ground (arith, released, targeted, assigned, e);
                        targeted = ground (arith, targeted, same);
                        assigned = ground (arith, released, targeted, assigned, e);
                        releases = ground (arith, released, targeted, assigned, e);
                        deployments = ground (arith, released, targeted, assigned, e);
                      }
                ]
          ]
    ]

pub record HasSingle (st : State) : Type 0 where
  pub keyed : IsKeyed st.assignments
  pub single : (d : String) → actives d st.assignments ≤ 1

create_deployment-HasSingle :
    (m : Minted) (r : Request) (fleet : Fleet) (st : State) (ids : List String) (st' : State)
    → IsDistinct fleet
    → HasSingle st
    → create_deployment m r fleet st ≡ ok (ids, st')
    → HasSingle st'
unfolding supersede
create_deployment-HasSingle m r fleet st ids st' distinct h e =
    let c = create_deployment-IsCreated m r fleet st ids st' e in
    let old = supersede m.now ids st.assignments in
    record {
      keyed =
          assign_all-IsKeyed m r ids old st'.assignments
            (update-IsKeyed (λ id a. supersede_one m.now ids a) st.assignments h.keyed) c.assigned;
      single = λ d. ground (
        arith,
        actives-assign_all m r d ids old st'.assignments c.assigned,
        actives-supersede m.now ids d st.assignments,
        times-is_in d ids,
        times-targets fleet r.target_type (text_or_empty r.target_id) ids d distinct c.targeted,
        h.single d,
      );
    }

-- A write to a row that is active keeps the device's at one.
write-HasSingle :
    (id : String) (new old : DeploymentAssignment) (st : State)
    → HasSingle st
    → get id st.assignments ≡ some old
    → is_active old.state ≡ true
    → new.device_id ≡ old.device_id
    → HasSingle (write id new st)
write-HasSingle id new old st h there active same = record {
  keyed = put-IsKeyed id new st.assignments h.keyed;
  single =
      λ d. ground (arith, actives-put d id new old st.assignments there, active, same, h.single d);
}

mark-HasSingle :
    (now : ℕ) (d : String) (st : State)
    → HasSingle st
    → HasSingle (mark_assignment_delivered now d st)
unfolding mark_assignment_delivered
mark-HasSingle now d st h = elim (Option-cases (newest (pending_for d) st.assignments)) [
  | inl nothing ↦ rw nothing h
  | inr ((i, a), found) ↦
      let (there, passes) = newest-get (pending_for d) st.assignments i a h.keyed found in
      rw found (write-HasSingle i _ a st h there (ground (arith, passes)) refl)
]

reconciled-device_id :
    (now : ℕ) (reported error_message : Option String) (release : Option FirmwareRelease)
    (a : DeploymentAssignment)
    → (reconciled now reported error_message release a).device_id ≡ a.device_id
reconciled-device_id now reported error_message release a = ground arith

reconcile-HasSingle :
    (now : ℕ) (d : String) (reported error_message : Option String) (st : State)
    → HasSingle st
    → HasSingle (reconcile_reported_version now d reported error_message st)
unfolding reconcile_reported_version
reconcile-HasSingle now d reported error_message st h =
    elim (Option-cases (newest (active_for d) st.assignments)) [
      | inl nothing ↦ rw nothing (if_cases HasSingle (d == "") st st h h)
      | inr ((i, a), found) ↦
          let (there, passes) = newest-get (active_for d) st.assignments i a h.keyed found in
          let release = get a.release_id st.releases in
          let new = reconciled now reported error_message release a in
          rw found (
            if_cases HasSingle (d == "") st (write i new st) h (
              write-HasSingle i new a st h there (ground (arith, passes))
                (reconciled-device_id now reported error_message release a)))
    ]

-- What a creation reads of the fleet is distinct.
abbrev pub IsSound : Call → Type 0
IsSound (creating m r fleet) = IsDistinct fleet
IsSound (fetching now d) = Unit
IsSound (reporting now d reported error_message) = Unit

step-HasSingle : (c : Call) (st : State) → IsSound c → HasSingle st → HasSingle (step c st)
unfolding firmware_assignment
step-HasSingle (creating m r fleet) st sound h =
    elim (Result-cases (create_deployment m r fleet st)) [
      | inr (x, failed) ↦ rw failed h
      | inl ((ids, st'), done) ↦
          rw done (create_deployment-HasSingle m r fleet st ids st' sound h done)
    ]
step-HasSingle (fetching now d) st sound h = elim (Option-cases (assignment_for_device d st)) [
  | inl nothing ↦ rw nothing h
  | inr (offer, there) ↦ rw there (mark-HasSingle now d st h)
]
step-HasSingle (reporting now d reported error_message) st sound h =
    reconcile-HasSingle now d reported error_message st h

-- Whatever deployments are created, and whatever the devices fetch and report, in any order, no
-- device has more than one assignment that is pending or delivered, if none had and the ids of the
-- assignments, of the devices and of each group's members are distinct.
pub run-HasSingle :
    (cs : List Call) (st : State) → All IsSound cs → HasSingle st → HasSingle (run cs st)
run-HasSingle [] st sound h = h
run-HasSingle (c ∷ cs) st (sound, later) h =
    run-HasSingle cs (step c st) later (step-HasSingle c st sound h)
