-- ===== src/Rbac/Effective/Coverage.antt =====
-- Which bindings let a user act on a device: the resolvers against a description by cases.
use rebooter_droids.Base.{
  ℕ, leb, String, Bool, true, false, ◌||◌, Option, none, some, ◌≡◌, ◌↔◌, ◌⊎◌, arith, List, [], ◌∷◌,
  ◌++◌, ◌==◌, eq_iff, Bool-cases, inl, inr, any, In, refl,
}
use rebooter_droids.Commands.Types.{Membership}
use rebooter_droids.Rbac.Bindings.{RoleBinding, rank, role_satisfies}
use rebooter_droids.Rbac.Effective.{
  Rows, is_held, has_global_role, cons_id, scope_ids, member, in_sites, devices_of_sites,
  devices_of_groups, device_ids, can_act_on_device,
}

-- How a binding reaches a device.
pub data Reaches (rows : Rows) (device_id : String) (b : RoleBinding) : Type 0 where
  everywhere : b.scope_type ≡ "global" → Reaches rows device_id b
  by_site :
      (site_id : String)
      → b.scope_type ≡ "site"
      → b.scope_id ≡ some site_id
      → In (device_id, some site_id) rows.devices
      → Reaches rows device_id b
  by_group :
      (group_id : String)
      → b.scope_type ≡ "group"
      → b.scope_id ≡ some group_id
      → In (record { group_id = group_id; device_id = device_id }) rows.memberships
      → Reaches rows device_id b
  itself : b.scope_type ≡ "device" → b.scope_id ≡ some device_id → Reaches rows device_id b

-- One of the user's bindings at or above the role reaches the device.
abbrev pub Covered : String → String → String → Rows → Type 0
Covered user_id device_id need rows =
    (b : RoleBinding) × In b rows.bindings
    × (b.user_id ≡ user_id)
    × (role_satisfies b.role need ≡ true)
    × Reaches rows device_id b

-- What `any` finds.
pub any-In_iff :
    {A : Type 0} (p : A → Bool) (xs : List A)
    → (any p xs ≡ true) ↔ ((x : A) × In x xs × (p x ≡ true))
any-In_iff p [] = (λ e. absurd (ground arith), λ (x, i, e). absurd i)
any-In_iff p (y ∷ ys) =
    let ih = any-In_iff p ys in
    (
      λ e. elim (Bool-cases (p y)) [
        | inl t ↦ (y, inl refl, t)
        | inr f ↦ let (x, i, t) = ih.0 (ground (arith, e, f)) in (x, inr i, t)
      ],
      λ (x, i, t). elim i [
        | inl here ↦ ground (arith, here, t)
        | inr later ↦ ground (arith, ih.1 (x, later, t))
      ],
    )

member-append :
    (x : String) (xs ys : List String) → member x (xs ++ ys) ≡ (member x xs || member x ys)
member-append x [] ys = refl
member-append x (y ∷ xs) ys = ground (arith, member-append x xs ys)

pub held :
    (user_id t need : String) (b : RoleBinding)
    → (is_held user_id t need b ≡ true)
      ↔ ((b.user_id ≡ user_id) × (b.scope_type ≡ t) × (role_satisfies b.role need ≡ true))
held user_id t need b = (
  ground (arith, eq_iff b.user_id user_id, eq_iff b.scope_type t),
  ground (arith, eq_iff b.user_id user_id, eq_iff b.scope_type t),
)

member-cons_id :
    (x : String) (o : Option String) (ids : List String)
    → (member x (cons_id o ids) ≡ true) ↔ ((o ≡ some x) ⊎ (member x ids ≡ true))
member-cons_id x none ids = (λ e. inr e, ground arith)
member-cons_id x (some i) ids = (ground (arith, eq_iff i x), ground (arith, eq_iff i x))

module _ (user_id t need x : String) where
  -- A binding that puts `x` into the set.
  abbrev Gives : RoleBinding → Type 0
  Gives b = (is_held user_id t need b ≡ true) × (b.scope_id ≡ some x)

  scope_ids-member_iff :
      (bs : List RoleBinding)
      → (member x (scope_ids user_id t need bs) ≡ true) ↔ ((b : RoleBinding) × In b bs × Gives b)
  unfolding scope_ids
  scope_ids-member_iff [] = (λ e. absurd (ground arith), λ (b, i, g). absurd i)
  scope_ids-member_iff (c ∷ bs) =
      let ih = scope_ids-member_iff bs in
      let here = member-cons_id x c.scope_id (scope_ids user_id t need bs) in
      elim (Bool-cases (is_held user_id t need c)) [
        | inl h ↦ rw h (
          λ e. elim (here.0 e) [
            | inl g ↦ (c, inl refl, (h, g))
            | inr l ↦ let (b, i, g) = ih.0 l in (b, inr i, g)
          ],
          λ (b, i, g).
              here.1
                (elim i [ inl s ↦ inl (ground (arith, s, g.1)) | inr l ↦ inr (ih.1 (b, l, g)) ]),
        )
        | inr n ↦ rw n (
          λ e. let (b, i, g) = ih.0 e in (b, inr i, g),
          λ (b, i, g). elim i [
            | inl s ↦ absurd (ground (arith, s, g.0, n))
            | inr l ↦ ih.1 (b, l, g)
          ],
        )
      ]

in_sites-some :
    (site_ids : List String) (o : Option String)
    → (in_sites site_ids o ≡ true) ↔ ((s : String) × (o ≡ some s) × (member s site_ids ≡ true))
in_sites-some site_ids none =
    (λ e. absurd (ground (arith, e)), λ (s, e, m). absurd (ground (arith, e)))
in_sites-some site_ids (some s) = (λ e. (s, refl, e), λ (r, e, m). ground (arith, e, m))

devices_of_sites-member_iff :
    (d : String) (site_ids : List String) (ds : List (String × Option String))
    → (member d (devices_of_sites site_ids ds) ≡ true)
      ↔ ((s : String) × In (d, some s) ds × (member s site_ids ≡ true))
unfolding devices_of_sites
devices_of_sites-member_iff d site_ids [] = (λ e. absurd (ground arith), λ (s, i, m). absurd i)
devices_of_sites-member_iff d site_ids ((c, o) ∷ ds) =
    let ih = devices_of_sites-member_iff d site_ids ds in
    let here = in_sites-some site_ids o in
    elim (Bool-cases (in_sites site_ids o)) [
      | inl h ↦ rw h (
        λ e. elim (Bool-cases (c == d)) [
          | inl t ↦ let (s, p, m) = here.0 h in (s, inl (ground (arith, t, p, eq_iff c d)), m)
          | inr f ↦ let (s, i, m) = ih.0 (ground (arith, e, f)) in (s, inr i, m)
        ],
        λ (s, i, m). elim i [
          | inl p ↦ ground (arith, p, eq_iff c d)
          | inr l ↦ ground (arith, ih.1 (s, l, m))
        ],
      )
      | inr n ↦ rw n (
        λ e. let (s, i, m) = ih.0 e in (s, inr i, m),
        λ (s, i, m). elim i [
          | inl p ↦ absurd (ground (arith, n, here.1 (s, ground (arith, p), m)))
          | inr l ↦ ih.1 (s, l, m)
        ],
      )
    ]

devices_of_groups-member_iff :
    (d : String) (group_ids : List String) (ms : List Membership)
    → (member d (devices_of_groups group_ids ms) ≡ true) ↔ (
        (g : String) × In (record { group_id = g; device_id = d }) ms × (member g group_ids ≡ true))
unfolding devices_of_groups
devices_of_groups-member_iff d group_ids [] = (λ e. absurd (ground arith), λ (g, i, m). absurd i)
devices_of_groups-member_iff d group_ids (c ∷ ms) =
    let ih = devices_of_groups-member_iff d group_ids ms in
    elim (Bool-cases (member c.group_id group_ids)) [
      | inl h ↦ rw h (
        λ e. elim (Bool-cases (c.device_id == d)) [
          | inl t ↦ (c.group_id, inl (ground (arith, t, eq_iff c.device_id d)), h)
          | inr f ↦ let (g, i, m) = ih.0 (ground (arith, e, f)) in (g, inr i, m)
        ],
        λ (g, i, m). elim i [
          | inl p ↦ ground (arith, p, eq_iff c.device_id d)
          | inr l ↦ ground (arith, ih.1 (g, l, m))
        ],
      )
      | inr n ↦ rw n (
        λ e. let (g, i, m) = ih.0 e in (g, inr i, m),
        λ (g, i, m). elim i [ inl p ↦ absurd (ground (arith, n, p, m)) | inr l ↦ ih.1 (g, l, m) ],
      )
    ]

module _ (user_id device_id need : String) (rows : Rows) where
  abbrev Direct : Type 0
  Direct = member device_id (scope_ids user_id "device" need rows.bindings) ≡ true

  abbrev ViaSite : Type 0
  ViaSite =
      member device_id (devices_of_sites (scope_ids user_id "site" need rows.bindings) rows.devices)
      ≡ true

  abbrev ViaGroup : Type 0
  ViaGroup =
      member device_id
        (devices_of_groups (scope_ids user_id "group" need rows.bindings) rows.memberships)
      ≡ true

  -- The union of the three sources.
  member-device_ids :
      (member device_id (device_ids user_id need rows) ≡ true) ↔ (Direct ⊎ (ViaSite ⊎ ViaGroup))
  member-device_ids =
      let direct = scope_ids user_id "device" need rows.bindings in
      let by_sites = devices_of_sites (scope_ids user_id "site" need rows.bindings) rows.devices in
      let by_groups =
        devices_of_groups (scope_ids user_id "group" need rows.bindings) rows.memberships in
      let outer = member-append device_id (direct ++ by_sites) by_groups in
      let inner = member-append device_id direct by_sites in
      (ground (arith, outer, inner), ground (arith, outer, inner))

  device_ids-Covered :
      member device_id (device_ids user_id need rows) ≡ true → Covered user_id device_id need rows
  device_ids-Covered e = elim (member-device_ids.0 e) [
    | inl d ↦
        let (b, i, g) = (scope_ids-member_iff user_id "device" need device_id rows.bindings).0 d in
        let (u, t, s) = (held user_id "device" need b).0 g.0 in (b, i, u, s, itself t g.1)
    | inr (inl v) ↦
        let (site, at, m) = (devices_of_sites-member_iff device_id _ rows.devices).0 v in
        let (b, i, g) = (scope_ids-member_iff user_id "site" need site rows.bindings).0 m in
        let (u, t, s) = (held user_id "site" need b).0 g.0 in (b, i, u, s, by_site site t g.1 at)
    | inr (inr v) ↦
        let (gid, at, m) = (devices_of_groups-member_iff device_id _ rows.memberships).0 v in
        let (b, i, g) = (scope_ids-member_iff user_id "group" need gid rows.bindings).0 m in
        let (u, t, s) = (held user_id "group" need b).0 g.0 in (b, i, u, s, by_group gid t g.1 at)
  ]

  Covered-device_ids :
      has_global_role user_id need rows ≡ false
      → Covered user_id device_id need rows
      → member device_id (device_ids user_id need rows) ≡ true
  Covered-device_ids n (b, i, u, s, everywhere t) = absurd (
      ground (
        arith,
        n,
        (any-In_iff (is_held user_id "global" need) rows.bindings).1
            (b, i, (held user_id "global" need b).1 (u, t, s)),
      ))
  Covered-device_ids n (b, i, u, s, by_site site t o d) =
      let m =
        (scope_ids-member_iff user_id "site" need site rows.bindings).1
          (b, i, ((held user_id "site" need b).1 (u, t, s), o)) in
      member-device_ids.1
        (inr (inl ((devices_of_sites-member_iff device_id _ rows.devices).1 (site, d, m))))
  Covered-device_ids n (b, i, u, s, by_group g t o d) =
      let m =
        (scope_ids-member_iff user_id "group" need g rows.bindings).1
          (b, i, ((held user_id "group" need b).1 (u, t, s), o)) in
      member-device_ids.1
        (inr (inr ((devices_of_groups-member_iff device_id _ rows.memberships).1 (g, d, m))))
  Covered-device_ids n (b, i, u, s, itself t o) = member-device_ids.1 (
      inl (
        (scope_ids-member_iff user_id "device" need device_id rows.bindings).1
          (b, i, ((held user_id "device" need b).1 (u, t, s), o))))

  -- A user may act on a device at a role exactly when one of the user's bindings at or above that
  -- role reaches the device: a global one, one of the device's site, one of a group that has the
  -- device as a member, or one of the device itself.
  pub can_act_on_device-Covered_iff :
      (can_act_on_device user_id device_id need rows ≡ true) ↔ Covered user_id device_id need rows
  unfolding can_act_on_device
  can_act_on_device-Covered_iff = elim (Bool-cases (has_global_role user_id need rows)) [
    | inl g ↦
        let (b, i, h) = (any-In_iff (is_held user_id "global" need) rows.bindings).0 g in
        let (u, t, s) = (held user_id "global" need b).0 h in
        rw g (λ e. (b, i, u, s, everywhere t), λ c. refl)
    | inr n ↦ rw n (device_ids-Covered, Covered-device_ids n)
  ]

leb_trans : (a b c : ℕ) → leb a b ≡ true → leb b c ≡ true → leb a c ≡ true
leb_trans a b c p q = ground arith

-- Who may act on a device at a role may act on it at every role that this one satisfies.
pub can_act_on_device-lower :
    (user_id device_id need lower : String) (rows : Rows)
    → role_satisfies need lower ≡ true
    → can_act_on_device user_id device_id need rows ≡ true
    → can_act_on_device user_id device_id lower rows ≡ true
can_act_on_device-lower user_id device_id need lower rows low e =
    let (b, i, u, s, r) = (can_act_on_device-Covered_iff user_id device_id need rows).0 e in
    (can_act_on_device-Covered_iff user_id device_id lower rows).1
      (b, i, u, leb_trans (rank lower) (rank need) (rank b.role) low s, r)
