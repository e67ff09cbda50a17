-- ===== src/Rbac/Gate/Laws.antt =====
-- What the gate refuses in each mode.
use rebooter_droids.Base.{
  In, ◌≢◌, eq_iff, ◌==◌, String, true, none, some, ◌≡◌, ◌↔◌, ◌⊎◌, arith, List, [], ◌∷◌, ◌++◌,
  Bool-cases, inl, inr, is_some, if◌then◌else◌,
}
use rebooter_droids.Rbac.Bindings.{RoleBinding, role_satisfies}
use rebooter_droids.Rbac.Effective.{Rows, is_held, can_act_on_device}
use rebooter_droids.Rbac.Effective.Coverage.{
  any-In_iff, held, Covered, can_act_on_device-Covered_iff,
}
use rebooter_droids.Rbac.Gate.{
  User, AuditRow, enforce, shadow, is_super_admin, denial, audit_row, require_can_act_on_device,
}

-- A user by the legacy role, or by a global binding, which takes an id.
abbrev pub IsSuperAdmin : User → Rows → Type 0
IsSuperAdmin user rows =
    (user.role ≡ "super_admin")
    ⊎ ((user.id ≢ "")
        × ((b : RoleBinding) × In b rows.bindings
            × (b.user_id ≡ user.id)
            × (b.scope_type ≡ "global")
            × (b.role ≡ "super_admin")))

role_satisfies-super_admin :
    (role : String) → (role_satisfies role "super_admin" ≡ true) ↔ (role ≡ "super_admin")
role_satisfies-super_admin role =
    (ground (arith, eq_iff role "super_admin"), ground (arith, eq_iff role "super_admin"))

is_super_admin-IsSuperAdmin :
    (user : User) (rows : Rows) → is_super_admin user rows ≡ true → IsSuperAdmin user rows
is_super_admin-IsSuperAdmin user rows e = elim (Bool-cases (user.role == "super_admin")) [
  | inl legacy ↦ inl (ground (arith, legacy, eq_iff user.role "super_admin"))
  | inr other ↦
      let (b, i, h) =
        (any-In_iff (is_held user.id "global" "super_admin") rows.bindings).0
          (ground (arith, e, other)) in
      let (u, t, s) = (held user.id "global" "super_admin" b).0 h in
      inr (
        λ empty. ground (arith, e, other, eq_iff user.id "", empty),
        (b, i, u, t, (role_satisfies-super_admin b.role).0 s),
      )
]

IsSuperAdmin-is_super_admin :
    (user : User) (rows : Rows) → IsSuperAdmin user rows → is_super_admin user rows ≡ true
IsSuperAdmin-is_super_admin user rows (inl legacy) =
    ground (arith, legacy, eq_iff user.role "super_admin")
IsSuperAdmin-is_super_admin user rows (inr (named, (b, i, u, t, s))) =
    let h =
      (held user.id "global" "super_admin" b).1 (u, t, (role_satisfies-super_admin b.role).1 s) in
    let found = (any-In_iff (is_held user.id "global" "super_admin") rows.bindings).1 (b, i, h) in
    ground (arith, found, eq_iff user.id "", named)

module _ (user : User) (device_id need : String) (rows : Rows) (log : List AuditRow) where
  -- In enforce mode the gate of a device lets a user pass exactly when the user is a super admin, by
  -- the role column or by a global binding, or one of the user's bindings at or above the role covers
  -- the device.
  pub require-enforce_iff :
      ((require_can_act_on_device enforce (some user) device_id need rows log).raised ≡ none)
      ↔ (IsSuperAdmin user rows ⊎ Covered user.id device_id need rows)
  unfolding require_can_act_on_device
  require-enforce_iff =
      let covered = can_act_on_device-Covered_iff user.id device_id need rows in
      elim (Bool-cases (is_super_admin user rows)) [
        | inl s ↦ (λ e. inl (is_super_admin-IsSuperAdmin user rows s), λ h. ground (arith, s))
        | inr n ↦ elim (Bool-cases (can_act_on_device user.id device_id need rows)) [
          | inl c ↦ (λ e. inr (covered.0 c), λ h. ground (arith, n, c))
          | inr c ↦ (
            λ e. absurd (ground (arith, n, c, e)),
            λ h. absurd (elim h [
              | inl s ↦ ground (arith, IsSuperAdmin-is_super_admin user rows s, n)
              | inr v ↦ ground (arith, c, covered.1 v)
            ]),
          )
        ]
      ]

  -- In shadow mode the gate of a device raises nothing, and it writes one audit row exactly where
  -- enforce mode raises, else none.
  pub require-shadow :
      let strict = require_can_act_on_device enforce (some user) device_id need rows log in
      let lax = require_can_act_on_device shadow (some user) device_id need rows log in
      (lax.raised ≡ none)
      × (lax.audit ≡ (
          if is_some strict.raised
          then log ++ audit_row shadow user (denial "device" device_id need) ∷ []
          else log))
  unfolding require_can_act_on_device
  require-shadow = elim (Bool-cases (is_super_admin user rows)) [
    | inl s ↦ ground (arith, s)
    | inr n ↦ elim (Bool-cases (can_act_on_device user.id device_id need rows)) [
      | inl c ↦ ground (arith, n, c)
      | inr c ↦ ground (arith, n, c)
    ]
  ]
