-- ===== src/Tenancy.antt =====
-- Tenant isolation, from app/services/tenant_scope.py: the scope of a request, the filter of its
-- reads and the guard of its writes. Mode has the switch between shadow and enforce.
pub mod Mode
pub mod Isolation
use rebooter_droids.Base.{
  is_some, String, Bool, true, false, not, ◌&&◌, ◌||◌, select, Option, none, some, List, [], ◌∷◌,
  ◌++◌, ◌==◌, if◌then◌else◌,
}
use rebooter_droids.Base.Result.{Result, ok, err, ◌>>=◌}

-- `_current_org` and `_bypass`.
pub record Scope : Type 0 where
  pub current_org : Option String
  pub bypass : Bool

-- The scope of a context in which nothing was set.
abbrev pub unset : Scope
unset = record { current_org = none; bypass = false }

abbrev pub set_org : Option String → Scope → Scope
set_org org scope = record scope { current_org = org }

-- A block of code, which may move the scope, with its result or what it raises.
abbrev pub Block : Type 0 → Type 0
Block A = Scope → A × Scope

-- `with system():` The tokens restore what was set before, also where the block raises.
unfoldable pub system : {A : Type 0} → Block A → Block A
system block scope = ((block (record { current_org = none; bypass = true })).0, scope)

-- `with org_context(org_id):`
unfoldable pub org_context : {A : Type 0} → String → Block A → Block A
org_context org block scope = ((block (record { current_org = some org; bypass = false })).0, scope)

-- What the filter adds to a SELECT.
pub data Criteria : Type 0 where
  unfiltered : Criteria
  only_org : String → Criteria

-- `CrossOrgWriteError`: the org of the row and the one that is bound.
pub data CrossOrgWriteError : Type 0 where
  cross_org_write : Option String → String → CrossOrgWriteError

-- The audit actions.
pub data Action : Type 0 where
  shadow_write unscoped_access : Action

-- The branches of `_add_tenant_filter` on the org that is bound.
abbrev pub org_criteria : Option String → Bool → Criteria × List Action
org_criteria none enforcing = (unfiltered, unscoped_access ∷ [])
org_criteria (some org) true = (only_org org, [])
org_criteria (some org) false = (unfiltered, [])

-- `_add_tenant_filter`, on a statement that does or does not touch a TenantScoped entity, with the
-- audit row of `_unscoped_violation`.
unfoldable pub add_tenant_filter : Bool → Scope → Bool → Criteria × List Action
add_tenant_filter touches scope enforcing =
    if not touches || scope.bypass
    then (unfiltered, [])
    else org_criteria scope.current_org enforcing

-- Whether the `WHERE organization_id = …` lets a row through: a NULL equals nothing.
unfoldable pub passes : Criteria → Option String → Bool
passes unfiltered row_org = true
passes (only_org org) none = false
passes (only_org org) (some row_org) = row_org == org

-- An object that the session holds. `scoped` is `isinstance(obj, TenantScoped)`.
pub record Object (Row : Type 0) : Type 0 where
  pub scoped : Bool
  pub is_audit_event : Bool
  pub organization_id : Option String
  pub row : Row

module _ {Row : Type 0} where
  -- Whether a SELECT of the object's table returns the object.
  unfoldable pub is_visible : Scope → Bool → Object Row → Bool
  is_visible scope enforcing obj =
      passes (add_tenant_filter obj.scoped scope enforcing).0 obj.organization_id

  -- `_guard_one` where an org is bound: the object with its stamp, and the audit rows.
  abbrev pub guard_bound :
      String
      → Bool
      → Object Row
      → Option String
      → Result CrossOrgWriteError (Object Row × List Action)
  guard_bound active enforcing obj none = ok (record obj { organization_id = some active }, [])
  guard_bound active enforcing obj (some org) =
      if org == active
      then ok (obj, [])
      else if enforcing
      then err (cross_org_write (some org) active)
      else ok (obj, shadow_write ∷ [])

  -- `_guard_one`. The audit row of an enforced refusal is rolled back with the transaction.
  unfoldable pub guard_one :
      Option String → Bool → Object Row → Result CrossOrgWriteError (Object Row × List Action)
  guard_one none enforcing obj =
      ok (obj, if is_some obj.organization_id then [] else unscoped_access ∷ [])
  guard_one (some active) enforcing obj = guard_bound active enforcing obj obj.organization_id

  -- `continue` on what is not TenantScoped, and on audit events.
  abbrev pub is_guarded : Object Row → Bool
  is_guarded obj = obj.scoped && not obj.is_audit_event

  unfoldable pub guard_each :
      Option String → Bool → Object Row → Result CrossOrgWriteError (Object Row × List Action)
  guard_each active enforcing obj =
      if is_guarded obj then guard_one active enforcing obj else ok (obj, [])

  -- The loops over `session.new` and over the modified objects of `session.dirty`.
  unfoldable pub guard_all :
      Option String
      → Bool
      → List (Object Row)
      → Result CrossOrgWriteError (List (Object Row) × List Action)
  guard_all active enforcing [] = ok ([], [])
  guard_all active enforcing (obj ∷ objs) = do
    (obj', actions) ← guard_each active enforcing obj
    (objs', later) ← guard_all active enforcing objs
    ok (obj' ∷ objs', actions ++ later)

  -- `_stamp_and_guard_tenant_writes`, before the objects are written.
  unfoldable pub before_flush :
      Scope → Bool → List (Object Row) → Result CrossOrgWriteError (List (Object Row) × List Action)
  before_flush scope enforcing written =
      if scope.bypass then ok (written, []) else guard_all scope.current_org enforcing written
