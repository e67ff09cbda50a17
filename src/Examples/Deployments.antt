-- ===== src/Examples/Deployments.antt =====
-- A fleet of two devices: one release for all of them, a later one for a group with one member.
use rebooter_droids.Base.{
  none, some, false, List, [], ◌∷◌, ◌≡◌, ◌==◌, refl, seconds, arith, if◌then◌else◌,
}
use rebooter_droids.Base.Text.{strip}
use rebooter_droids.Base.Result.{ok}
use rebooter_droids.Base.Table.{get, put, update}
use rebooter_droids.Deployments.Types.{FirmwareRelease, State, Fleet}
use rebooter_droids.Deployments.Create.{
  Request, Minted, create_deployment, targets, assign_all, supersede, all_ids, members_of,
}
use rebooter_droids.Deployments.Device.{
  assignment_for_device, mark_assignment_delivered, firmware_assignment, newest,
  reconcile_reported_version,
}
use rebooter_droids.Deployments.Calls.{Call, creating, fetching, reporting, step, run}
use rebooter_droids.Deployments.Actives.{actives, times}
use rebooter_droids.Deployments.Single.{IsDistinct, HasSingle, run-HasSingle}
use rebooter_droids.Deployments.Rollout.{new_offer, create_deployment-offer, report-offer}

abbrev first_release : FirmwareRelease
first_release = record {
  version = "0.1.9";
  channel = "stable";
  download_url = "https://hub/1";
  sha256 = "a1";
}

abbrev second_release : FirmwareRelease
second_release = record {
  version = "0.2.0";
  channel = "beta";
  download_url = "https://hub/2";
  sha256 = "a2";
}

abbrev empty : State
empty = record {
  releases = ("fwr-1", first_release) ∷ ("fwr-2", second_release) ∷ [];
  deployments = [];
  assignments = [];
}

abbrev fleet : Fleet
fleet = record {
  devices = ("dev-1", some "site-1") ∷ ("dev-2", none) ∷ [];
  memberships = ("grp-1", "dev-2") ∷ [];
}

abbrev to_all : Request
to_all = record {
  release_id = "fwr-1";
  target_type = "all_devices";
  target_id = none;
  channel = none;
  force = false;
  issued_by_user_id = none;
}

abbrev to_group : Request
to_group = record to_all { release_id = "fwr-2"; target_type = "group"; target_id = some "grp-1" }

abbrev first_ids : Minted
first_ids = record {
  now = seconds 1;
  deployment_id = "fwd-1";
  assignment_id = λ d. if d == "dev-1" then "a-1" else "a-2";
}

abbrev second_ids : Minted
second_ids = record {
  now = seconds 2;
  deployment_id = "fwd-2";
  assignment_id = λ d. if d == "dev-1" then "b-1" else "b-2";
}

abbrev calls : List Call
calls =
    creating first_ids to_all fleet
    ∷ fetching (seconds 2) "dev-2"
    ∷ creating second_ids to_group fleet
    ∷ fetching (seconds 3) "dev-2"
    ∷ reporting (seconds 4) "dev-2" (some " 0.2.0 ") (some "healthy")
    ∷ []

distinct : IsDistinct fleet
unfolding get times members_of
distinct = record { keyed = (refl, (refl, tt)); members = λ g d. ground arith }

nothing_yet : HasSingle empty
unfolding actives
nothing_yet = record { keyed = tt; single = λ d. omega arith }

run-HasSingle_example : HasSingle (run calls empty)
run-HasSingle_example =
    run-HasSingle calls empty (distinct, (tt, (distinct, (tt, (tt, tt))))) nothing_yet

-- The group's device is told of the second release, the other one still of the first.
abbrev created : State
created = run (creating first_ids to_all fleet ∷ fetching (seconds 2) "dev-2" ∷ []) empty

abbrev created_again : State
created_again = step (creating second_ids to_group fleet) created

again_test : create_deployment second_ids to_group fleet created ≡ ok ("dev-2" ∷ [], created_again)
unfolding create_deployment targets all_ids members_of assign_all supersede firmware_assignment
    assignment_for_device mark_assignment_delivered newest get put update
again_test = refl

released_test : get "fwr-2" created.releases ≡ some second_release
unfolding create_deployment targets all_ids assign_all supersede firmware_assignment
    assignment_for_device mark_assignment_delivered newest get put update
released_test = refl

create_deployment-offer_example :
    assignment_for_device "dev-2" created_again
    ≡ some (new_offer second_ids to_group second_release "dev-2")
create_deployment-offer_example =
    create_deployment-offer second_ids to_group fleet created created_again ("dev-2" ∷ [])
      second_release "dev-2" distinct released_test again_test refl

other_test :
    assignment_for_device "dev-1" created_again
    ≡ some (new_offer first_ids to_all first_release "dev-1")
unfolding create_deployment targets all_ids members_of assign_all supersede firmware_assignment
    assignment_for_device mark_assignment_delivered newest get put update
other_test = refl

single_then : HasSingle created_again
single_then =
    run-HasSingle
      (creating first_ids to_all fleet
        ∷ fetching (seconds 2) "dev-2"
        ∷ creating second_ids to_group fleet
        ∷ [])
      empty (distinct, (tt, (distinct, tt))) nothing_yet

report-offer_example :
    assignment_for_device "dev-2" (
      reconcile_reported_version
        (seconds 4)
        "dev-2"
        (some " 0.2.0 ")
        (some "healthy")
        created_again)
    ≡ none
unfolding strip
report-offer_example =
    report-offer (seconds 4) "dev-2" (some " 0.2.0 ") (some "healthy") created_again
      (new_offer second_ids to_group second_release "dev-2") single_then refl
      create_deployment-offer_example
