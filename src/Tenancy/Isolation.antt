-- ===== src/Tenancy/Isolation.antt =====
-- What the filter of reads and the guard of writes give together.
use rebooter_droids.Base.{
  String, Bool, true, false, not, ◌&&◌, Option, none, some, List, [], ◌∷◌, ◌==◌, ◌≡◌, ◌⊎◌, inl, inr,
  refl, arith, eq_iff, Bool-cases, if◌then◌else◌, any, All, map, subst,
}
use rebooter_droids.Base.Result.{ok, err, is_ok}
use rebooter_droids.Tenancy.{
  Scope, Object, Action, shadow_write, cross_org_write, guard_each, CrossOrgWriteError,
  add_tenant_filter, passes, is_visible, guard_one, guard_all, before_flush,
}

-- The scope of a request of an org.
abbrev pub bound_to : String → Scope
bound_to org = record { current_org = some org; bypass = false }

-- The org of a row is not the one that is bound.
abbrev pub is_foreign_org : String → Option String → Bool
is_foreign_org active none = false
is_foreign_org active (some org) = not (org == active)

abbrev pub org_or : String → Option String → Option String
org_or active none = some active
org_or active (some org) = some org

module _ {Row : Type 0} where
  -- What belongs to a tenant. Audit events are written under any org.
  abbrev pub is_owned : Object Row → Bool
  is_owned obj = obj.scoped && not obj.is_audit_event

  -- A tenant's row of another org than the one that is bound.
  unfoldable pub is_foreign : String → Object Row → Bool
  is_foreign active obj = is_owned obj && is_foreign_org active obj.organization_id

  -- The object with the org that is bound, where it is to have one and has none.
  unfoldable pub stamped : String → Object Row → Object Row
  stamped active obj =
      if is_owned obj
      then record obj { organization_id = org_or active obj.organization_id }
      else obj

  -- The audit rows of the foreign writes.
  unfoldable pub audit_rows : String → List (Object Row) → List Action
  audit_rows active [] = []
  audit_rows active (obj ∷ objs) =
      let rest = audit_rows active objs in
      if is_foreign active obj then shadow_write ∷ rest else rest

  -- A request of the reader's org sees the object exactly when that is the org it was written
  -- under; what is not scoped, and audit events, are left out.
  abbrev pub VisibleTo : String → String → Object Row → Type 0
  VisibleTo active reader obj =
      (is_owned obj ≡ false) ⊎ (is_visible (bound_to reader) true obj ≡ (active == reader))

  guard_each-shadow :
      (active : String) (obj : Object Row)
      → guard_each (some active) false obj
        ≡ ok (stamped active obj, if is_foreign active obj then shadow_write ∷ [] else [])
  unfolding guard_each guard_one stamped is_foreign
  guard_each-shadow active obj = ground arith

  guard_each-enforced :
      (active : String) (obj : Object Row)
      → is_foreign active obj ≡ false
      → guard_each (some active) true obj ≡ ok (stamped active obj, [])
  unfolding guard_each guard_one stamped is_foreign
  guard_each-enforced active obj own = ground arith

  guard_each-refused :
      (active : String) (obj : Object Row)
      → is_foreign active obj ≡ true
      → (e : CrossOrgWriteError) × (guard_each (some active) true obj ≡ err e)
  unfolding guard_each guard_one is_foreign
  guard_each-refused active obj foreign = (cross_org_write obj.organization_id active, ground arith)

  -- In shadow mode the guard refuses nothing: it stamps the rows that have no org, leaves every
  -- other row as it is, and records an audit row for each foreign one.
  pub flush-shadow :
      (active : String) (objs : List (Object Row))
      → before_flush (bound_to active) false objs
        ≡ ok (map (stamped active) objs, audit_rows active objs)
  unfolding before_flush guard_all audit_rows
  flush-shadow active [] = refl
  flush-shadow active (obj ∷ objs) =
      ground (arith, guard_each-shadow active obj, flush-shadow active objs)

  flush-enforced :
      (active : String) (objs : List (Object Row))
      → any (is_foreign active) objs ≡ false
      → guard_all (some active) true objs ≡ ok (map (stamped active) objs, [])
  unfolding guard_all
  flush-enforced active [] own = refl
  flush-enforced active (obj ∷ objs) own =
      ground (arith, guard_each-enforced active obj, flush-enforced active objs)

  flush-refused :
      (active : String) (objs : List (Object Row))
      → any (is_foreign active) objs ≡ true
      → (e : CrossOrgWriteError) × (guard_all (some active) true objs ≡ err e)
  unfolding guard_all
  flush-refused active [] some_foreign = cc
  flush-refused active (obj ∷ objs) some_foreign = elim (Bool-cases (is_foreign active obj)) [
    | inl foreign ↦
        let (e, refused) = guard_each-refused active obj foreign in (e, ground (arith, refused))
    | inr own ↦
        let (e, refused) = flush-refused active objs (ground (arith, own, some_foreign)) in
        (e, ground (arith, refused, guard_each-enforced active obj own))
  ]

  -- In enforce mode the guard refuses a flush exactly when it would write a tenant-scoped row of
  -- another org that is no audit event.
  pub flush-refused_iff :
      (active : String) (objs : List (Object Row))
      → is_ok (before_flush (bound_to active) true objs) ≡ not (any (is_foreign active) objs)
  unfolding before_flush
  flush-refused_iff active objs = elim (Bool-cases (any (is_foreign active) objs)) [
    | inl foreign ↦
        let (e, refused) = flush-refused active objs foreign in ground (arith, refused, foreign)
    | inr own ↦ ground (arith, own, flush-enforced active objs own)
  ]

  stamped_fields-visible :
      (active reader : String) (scoped audit : Bool) (org : Option String) (row : Row)
      → let obj : Object Row = record {
        scoped = scoped;
        is_audit_event = audit;
        organization_id = org;
        row = row;
      } in
        is_foreign active obj ≡ false → VisibleTo active reader (stamped active obj)
  unfolding stamped is_foreign is_visible add_tenant_filter passes
  stamped_fields-visible active reader false audit org row own = inl refl
  stamped_fields-visible active reader true true org row own = inl refl
  stamped_fields-visible active reader true false none row own = inr refl
  stamped_fields-visible active reader true false (some x) row own =
      inr (ground (arith, own, eq_iff x active, eq_iff x reader, eq_iff active reader))

  stamped-visible :
      (active reader : String) (obj : Object Row)
      → is_foreign active obj ≡ false
      → VisibleTo active reader (stamped active obj)
  stamped-visible active reader obj own =
      stamped_fields-visible active reader obj.scoped obj.is_audit_event obj.organization_id obj.row
        own

  map-stamped-visible :
      (active reader : String) (objs : List (Object Row))
      → any (is_foreign active) objs ≡ false
      → All (VisibleTo active reader) (map (stamped active) objs)
  map-stamped-visible active reader [] own = tt
  map-stamped-visible active reader (obj ∷ objs) own = (
    stamped-visible active reader obj (ground (arith, own)),
    map-stamped-visible active reader objs (ground (arith, own)),
  )

  -- What an enforced flush under one org writes is read back under that org and under no other, if
  -- it is tenant-scoped and no audit event.
  pub flush-Isolated :
      (active reader : String) (objs written : List (Object Row)) (actions : List Action)
      → before_flush (bound_to active) true objs ≡ ok (written, actions)
      → All (VisibleTo active reader) written
  unfolding before_flush
  flush-Isolated active reader objs written actions e =
      elim (Bool-cases (any (is_foreign active) objs)) [
        | inl foreign ↦ let (e', refused) = flush-refused active objs foreign in cc (e, refused)
        | inr own ↦
            let same : map (stamped active) objs ≡ written =
              ground (arith, e, flush-enforced active objs own) in
            subst (All (VisibleTo active reader)) same (map-stamped-visible active reader objs own)
      ]
