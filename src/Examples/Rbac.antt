-- ===== src/Examples/Rbac.antt =====
-- Role bindings of an operator of one site and of an admin of one group.
use rebooter_droids.Base.{true, false, none, some, ◌≡◌, ◌↔◌, ◌⊎◌, refl, List, [], ◌∷◌}
use rebooter_droids.Base.Result.{ok}
use rebooter_droids.Rbac.Bindings.{
  RoleBinding, Key, is_for, find, check_grant, grant, new_binding, set_role,
}
use rebooter_droids.Rbac.Bindings.Laws.{IsUnique}
use rebooter_droids.Rbac.Effective.{
  Rows, can_act_on_device, scope_ids, devices_of_sites, devices_of_groups,
}
use rebooter_droids.Rbac.Effective.Coverage.{Covered, can_act_on_device-Covered_iff}
use rebooter_droids.Rbac.Gate.{User, enforce, require_can_act_on_device}
use rebooter_droids.Rbac.Gate.Laws.{IsSuperAdmin, require-enforce_iff}

abbrev site_key : Key
site_key = record { user_id = "olga"; scope_type = "site"; scope_id = some "s1" }

abbrev group_key : Key
group_key = record { user_id = "ann"; scope_type = "group"; scope_id = some "g1" }

abbrev site_binding : RoleBinding
site_binding = new_binding 1 site_key "operator" none

abbrev group_binding : RoleBinding
group_binding = new_binding 2 group_key "admin" none

abbrev bindings : List RoleBinding
bindings = site_binding ∷ group_binding ∷ []

abbrev rows : Rows
rows = record {
  bindings = bindings;
  devices = ("d1", some "s1") ∷ ("d2", none) ∷ [];
  memberships = record { group_id = "g1"; device_id = "d2" } ∷ [];
}

bindings-IsUnique : IsUnique bindings
unfolding find is_for
bindings-IsUnique = (refl, (refl, tt))

-- The site covers its device and no other; the group covers its member.
can_act_test :
    (can_act_on_device "olga" "d1" "viewer" rows ≡ true)
    × (can_act_on_device "olga" "d1" "admin" rows ≡ false)
    × (can_act_on_device "olga" "d2" "viewer" rows ≡ false)
    × (can_act_on_device "ann" "d2" "operator" rows ≡ true)
unfolding can_act_on_device scope_ids devices_of_sites devices_of_groups
can_act_test = (refl, refl, refl, refl)

promotion :
    grant 9 site_key "admin" none bindings
    ≡ ok (
      record site_binding { role = "admin"; updated_at = 9 },
      record site_binding { role = "admin"; updated_at = 9 } ∷ group_binding ∷ [],
    )
unfolding grant check_grant find set_role is_for
promotion = refl

can_act_on_device-Covered_iff_example :
    (can_act_on_device "olga" "d1" "viewer" rows ≡ true) ↔ Covered "olga" "d1" "viewer" rows
can_act_on_device-Covered_iff_example = can_act_on_device-Covered_iff "olga" "d1" "viewer" rows

abbrev olga : User
olga = record { id = "olga"; role = "operator" }

require-enforce_iff_example :
    ((require_can_act_on_device enforce (some olga) "d2" "viewer" rows []).raised ≡ none)
    ↔ (IsSuperAdmin olga rows ⊎ Covered "olga" "d2" "viewer" rows)
require-enforce_iff_example = require-enforce_iff olga "d2" "viewer" rows []
