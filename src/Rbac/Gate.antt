-- ===== src/Rbac/Gate.antt =====
-- The scope gate: `_is_super_admin`, `_scope_gate` and `require_can_act_on_…` of
-- app/services/role_bindings.py. The enforcement mode is what `enforce_mode` reads from the runtime
-- settings; the user is the argument or the one of the request, if there is one.
pub mod Laws
use rebooter_droids.Base.{
  String, Bool, true, false, not, ◌&&◌, ◌||◌, Option, none, some, ◌≡◌, ◌↔◌, arith, List, [], ◌∷◌,
  ◌++◌, ◌==◌, if◌then◌else◌, Bool-cases, inl, inr,
}
use rebooter_droids.Base.Result.{Result, ok, err}
use rebooter_droids.Rbac.Effective.{
  Rows, has_global_role, can_act_on_device, can_act_on_site, can_act_on_group,
}

pub data Mode : Type 0 where
  shadow enforce : Mode

-- The user of a request: the id and the legacy `users.role` column.
pub record User : Type 0 where
  pub id : String
  pub role : String

-- `RbacScopeDenied`, and what an audit row has of it.
pub record Denial : Type 0 where
  pub scope_type : String
  pub scope_id : String
  pub role_needed : String

-- The rows that the gate writes: `rbac.enforce_deny` and `rbac.shadow_deny`.
pub record AuditRow : Type 0 where
  pub action : String
  pub actor_user_id : String
  pub denial : Denial

-- The audit log after the gate, and what it raises.
pub record Verdict : Type 0 where
  pub audit : List AuditRow
  pub raised : Option Denial

abbrev pub is_super_admin : User → Rows → Bool
is_super_admin user rows =
    user.role == "super_admin"
    || (not (user.id == "") && has_global_role user.id "super_admin" rows)

abbrev pub deny_action : Mode → String
deny_action enforce = "rbac.enforce_deny"
deny_action shadow = "rbac.shadow_deny"

abbrev pub raised_in : Mode → Denial → Option Denial
raised_in enforce d = some d
raised_in shadow d = none

abbrev pub audit_row : Mode → User → Denial → AuditRow
audit_row mode user d = record { action = deny_action mode; actor_user_id = user.id; denial = d }

-- `_scope_gate`: the audit row is written in its own transaction, before the exception.
abbrev pub scope_gate : Mode → User → Bool → Denial → List AuditRow → Verdict
scope_gate mode user allowed d log =
    if allowed
    then record { audit = log; raised = none }
    else record { audit = log ++ audit_row mode user d ∷ []; raised = raised_in mode d }

abbrev pub pass : List AuditRow → Verdict
pass log = record { audit = log; raised = none }

-- What the three gates share.
abbrev pub gate : Mode → Option User → (User → Bool) → Denial → Rows → List AuditRow → Verdict
gate mode none allowed d rows log = pass log
gate mode (some user) allowed d rows log =
    if is_super_admin user rows then pass log else scope_gate mode user (allowed user) d log

abbrev pub denial : String → String → String → Denial
denial t id need = record { scope_type = t; scope_id = id; role_needed = need }

unfoldable pub require_can_act_on_device :
    Mode → Option User → String → String → Rows → List AuditRow → Verdict
require_can_act_on_device mode user device_id need rows =
    gate mode user (λ u. can_act_on_device u.id device_id need rows)
      (denial "device" device_id need) rows

unfoldable pub require_can_act_on_site :
    Mode → Option User → String → String → Rows → List AuditRow → Verdict
require_can_act_on_site mode user site_id need rows =
    gate mode user (λ u. can_act_on_site u.id site_id need rows) (denial "site" site_id need) rows

unfoldable pub require_can_act_on_group :
    Mode → Option User → String → String → Rows → List AuditRow → Verdict
require_can_act_on_group mode user group_id need rows =
    gate mode user (λ u. can_act_on_group u.id group_id need rows) (denial "group" group_id need)
      rows
