-- ===== src/Rbac/Bindings.antt =====
-- The rows of `role_bindings`, `grant` and `revoke`, from app/services/role_bindings.py. The queries
-- see the rows of one organization, those that the tenant filter lets through.
pub mod Laws
pub mod Unique
use rebooter_droids.Base.{
  ℕ, String, Bool, true, false, not, ◌&&◌, ◌||◌, Option, none, some, List, [], ◌∷◌, ◌++◌, ◌==◌, leb,
  is_some, if◌then◌else◌,
}
use rebooter_droids.Base.Result.{Result, ok, err, ◌>>=◌, ◌>>◌, require}

pub record RoleBinding : Type 0 where
  pub user_id : String
  pub scope_type : String
  pub scope_id : Option String
  pub role : String
  pub created_at : ℕ
  pub updated_at : ℕ
  pub created_by_user_id : Option String

-- `_ROLE_RANK.get(role, 0)`
abbrev pub rank : String → ℕ
rank role =
    if role == "super_admin"
    then 4
    else if role == "admin"
    then 3
    else if role == "operator"
    then 2
    else if role == "viewer"
    then 1
    else 0

-- `_role_satisfies`
abbrev pub role_satisfies : String → String → Bool
role_satisfies have need = leb (rank need) (rank have)

-- `role in _ROLE_RANK`
abbrev pub is_role : String → Bool
is_role role = role == "super_admin" || role == "admin" || role == "operator" || role == "viewer"

-- `scope_type in ALL_SCOPE_TYPES`
abbrev pub is_scope_type : String → Bool
is_scope_type t = t == "global" || t == "site" || t == "group" || t == "device"

-- `RoleBinding.scope_id == scope_id`, which is `IS NULL` where the argument is None.
abbrev pub same_id : Option String → Option String → Bool
same_id none none = true
same_id (some i) (some j) = i == j
same_id _ _ = false

-- What a binding is looked up by.
pub record Key : Type 0 where
  pub user_id : String
  pub scope_type : String
  pub scope_id : Option String

unfoldable pub is_for : Key → RoleBinding → Bool
is_for k b = b.user_id == k.user_id && b.scope_type == k.scope_type && same_id b.scope_id k.scope_id

-- `session.scalar(select(RoleBinding).where(…))`: the first row that matches.
unfoldable pub find : Key → List RoleBinding → Option RoleBinding
unfolding is_for
find k [] = none
find k (b ∷ bs) = let later = find k bs in if is_for k b then some b else later

-- The assignments to the row that was found.
unfoldable pub set_role : ℕ → Key → String → List RoleBinding → List RoleBinding
set_role now k role [] = []
set_role now k role (b ∷ bs) =
    let later = b ∷ set_role now k role bs in
    if is_for k b then record b { role = role; updated_at = now } ∷ bs else later

-- `session.delete(existing)`
unfoldable pub delete_first : Key → List RoleBinding → List RoleBinding
delete_first k [] = []
delete_first k (b ∷ bs) = let later = b ∷ delete_first k bs in if is_for k b then bs else later

-- What `grant` raises.
pub data GrantError : Type 0 where
  unknown_scope_type unknown_role : String → GrantError
  scope_id_not_null scope_id_required : GrantError

-- `bool(scope_id)`
abbrev pub has_text : Option String → Bool
has_text none = false
has_text (some i) = not (i == "")

abbrev pub new_binding : ℕ → Key → String → Option String → RoleBinding
new_binding now k role granted_by = record {
  user_id = k.user_id;
  scope_type = k.scope_type;
  scope_id = k.scope_id;
  role = role;
  created_at = now;
  updated_at = now;
  created_by_user_id = granted_by;
}

-- The transaction of `grant`, on the row that was found.
abbrev pub granted :
    ℕ
    → Key
    → String
    → Option String
    → List RoleBinding
    → Option RoleBinding
    → RoleBinding × List RoleBinding
granted now k role by bs (some existing) =
    (record existing { role = role; updated_at = now }, set_role now k role bs)
granted now k role by bs none = (new_binding now k role by, bs ++ new_binding now k role by ∷ [])

-- The tests of `grant`.
unfoldable pub check_grant : Key → String → Result GrantError (Unit {0})
check_grant k role = do
  require (is_scope_type k.scope_type) (unknown_scope_type k.scope_type)
  require (not (k.scope_type == "global" && is_some k.scope_id)) scope_id_not_null
  require (k.scope_type == "global" || has_text k.scope_id) scope_id_required
  require (is_role role) (unknown_role role)

unfoldable pub grant :
    ℕ
    → Key
    → String
    → Option String
    → List RoleBinding
    → Result GrantError (RoleBinding × List RoleBinding)
unfolding check_grant
grant now k role by bs = do check_grant k role; ok (granted now k role by bs (find k bs))

unfoldable pub revoke : Key → List RoleBinding → Bool × List RoleBinding
revoke k bs = (is_some (find k bs), delete_first k bs)
