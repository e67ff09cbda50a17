-- ===== src/Rbac/Effective.antt =====
-- The effective scopes of a user: `has_global_role`, `effective_…_ids` and `can_act_on_…` of
-- app/services/role_bindings.py. A set is a list that is only asked for membership.
pub mod Coverage
use rebooter_droids.Base.{
  String, Bool, true, false, ◌&&◌, ◌||◌, Option, none, some, List, [], ◌∷◌, ◌++◌, ◌==◌, any,
  if◌then◌else◌,
}
use rebooter_droids.Commands.Types.{Membership}
use rebooter_droids.Rbac.Bindings.{RoleBinding, role_satisfies}

-- The tables that the resolvers read: the bindings, each device with its site, and the groups.
pub record Rows : Type 0 where
  pub bindings : List RoleBinding
  pub devices : List (String × Option String)
  pub memberships : List Membership

-- The user's bindings of a scope type at or above a role.
abbrev pub is_held : String → String → String → RoleBinding → Bool
is_held user_id t need b = b.user_id == user_id && b.scope_type == t && role_satisfies b.role need

abbrev pub has_global_role : String → String → Rows → Bool
has_global_role user_id need rows = any (is_held user_id "global" need) rows.bindings

-- `if b.scope_id is not None`
abbrev pub cons_id : Option String → List String → List String
cons_id none ids = ids
cons_id (some i) ids = i ∷ ids

-- The comprehension that each resolver has.
unfoldable pub scope_ids : String → String → String → List RoleBinding → List String
scope_ids user_id t need [] = []
scope_ids user_id t need (b ∷ bs) =
    let later = scope_ids user_id t need bs in
    if is_held user_id t need b then cons_id b.scope_id later else later

abbrev pub member : String → List String → Bool
member x ids = any (λ i. i == x) ids

abbrev pub in_sites : List String → Option String → Bool
in_sites site_ids none = false
in_sites site_ids (some s) = member s site_ids

-- `select(Device.id).where(Device.site_id.in_(site_ids))`
unfoldable pub devices_of_sites : List String → List (String × Option String) → List String
devices_of_sites site_ids [] = []
devices_of_sites site_ids ((d, site) ∷ rest) =
    let later = devices_of_sites site_ids rest in
    if in_sites site_ids site then d ∷ later else later

-- `select(GroupMembership.device_id).where(GroupMembership.group_id.in_(group_ids))`
unfoldable pub devices_of_groups : List String → List Membership → List String
devices_of_groups group_ids [] = []
devices_of_groups group_ids (m ∷ rest) =
    let later = devices_of_groups group_ids rest in
    if member m.group_id group_ids then m.device_id ∷ later else later

-- `ALL_SENTINEL`, or a set of ids.
pub data Ids : Type 0 where
  every : Ids
  these : List String → Ids

abbrev pub effective_ids : String → String → String → Rows → Ids
effective_ids t user_id need rows =
    if has_global_role user_id need rows
    then every
    else these (scope_ids user_id t need rows.bindings)

abbrev pub effective_site_ids : String → String → Rows → Ids
effective_site_ids = effective_ids "site"

abbrev pub effective_group_ids : String → String → Rows → Ids
effective_group_ids = effective_ids "group"

abbrev pub device_ids : String → String → Rows → List String
device_ids user_id need rows =
    scope_ids user_id "device" need rows.bindings
    ++ devices_of_sites (scope_ids user_id "site" need rows.bindings) rows.devices
    ++ devices_of_groups (scope_ids user_id "group" need rows.bindings) rows.memberships

abbrev pub effective_device_ids : String → String → Rows → Ids
effective_device_ids user_id need rows =
    if has_global_role user_id need rows then every else these (device_ids user_id need rows)

-- `eff == ALL_SENTINEL or x in eff`
abbrev pub contains : Ids → String → Bool
contains every x = true
contains (these ids) x = member x ids

unfoldable pub can_act_on_device : String → String → String → Rows → Bool
can_act_on_device user_id device_id need rows =
    contains (effective_device_ids user_id need rows) device_id

unfoldable pub can_act_on_site : String → String → String → Rows → Bool
can_act_on_site user_id site_id need rows = contains (effective_site_ids user_id need rows) site_id

unfoldable pub can_act_on_group : String → String → String → Rows → Bool
can_act_on_group user_id group_id need rows =
    contains (effective_group_ids user_id need rows) group_id
