-- ===== src/Rbac/Bindings/Laws.antt =====
-- `grant` and `revoke` as operations on a map from keys to roles.
use rebooter_droids.Base.{
  ℕ, String, true, Option, none, some, ◌≡◌, List, [], ◌∷◌, ◌++◌, eq_iff, eq_refl, refl, arith,
  if◌then◌else◌, is_some, Bool-cases, Option-cases, inl, inr,
}
use rebooter_droids.Base.Result.{ok, Result-cases}
use rebooter_droids.Rbac.Bindings.{
  RoleBinding, Key, is_for, same_id, find, set_role, granted, check_grant, grant, new_binding,
}

-- A lookup among rows of which the last is new.
pub find-append :
    (k : Key) (b : RoleBinding) (bs : List RoleBinding)
    → find k (bs ++ b ∷ [])
      ≡ (if is_some (find k bs) then find k bs else if is_for k b then some b else none)
unfolding find
find-append k b [] = ground arith
find-append k b (c ∷ bs) = ground (arith, find-append k b bs)

same_id-eq : (o p : Option String) → same_id o p ≡ true → o ≡ p
same_id-eq none none e = refl
same_id-eq none (some j) e = absurd (ground (arith, e))
same_id-eq (some i) none e = absurd (ground (arith, e))
same_id-eq (some i) (some j) e = ground (arith, e, eq_iff i j)

same_id_refl : (o : Option String) → same_id o o ≡ true
same_id_refl none = refl
same_id_refl (some i) = eq_refl i

is_for-fields :
    (k : Key) (b : RoleBinding)
    → is_for k b ≡ true
    → (b.user_id ≡ k.user_id) × (b.scope_type ≡ k.scope_type) × (b.scope_id ≡ k.scope_id)
unfolding is_for
is_for-fields k b e = (
  ground (arith, e, eq_iff b.user_id k.user_id),
  ground (arith, e, eq_iff b.scope_type k.scope_type),
  same_id-eq b.scope_id k.scope_id (ground (arith, e)),
)

-- The key of a row.
abbrev pub key_of : RoleBinding → Key
key_of b = record { user_id = b.user_id; scope_type = b.scope_type; scope_id = b.scope_id }

pub key_of-is_for : (k : Key) (b : RoleBinding) → is_for k b ≡ true → key_of b ≡ k
key_of-is_for k b e = let (u, t, i) = is_for-fields k b e in ground (arith, u, t, i)

pub is_for_refl : (b : RoleBinding) → is_for (key_of b) b ≡ true
unfolding is_for
is_for_refl b = ground (arith, eq_refl b.user_id, eq_refl b.scope_type, same_id_refl b.scope_id)

pub find-is_for :
    (k : Key) (e : RoleBinding) (bs : List RoleBinding) → find k bs ≡ some e → is_for k e ≡ true
unfolding find
find-is_for k e [] h = absurd (ground (arith, h))
find-is_for k e (b ∷ bs) h = elim (Bool-cases (is_for k b)) [
  | inl y ↦ ground (arith, y, h)
  | inr n ↦ find-is_for k e bs (ground (arith, n, h))
]

-- A row has one key only.
pub is_for_unique : (k j : Key) (e : RoleBinding) → is_for k e ≡ true → is_for j e ≡ true → j ≡ k
is_for_unique k j e p q = ground (arith, key_of-is_for k e p, key_of-is_for j e q)

-- At most one row for each key, the constraint `uq_role_binding_scope`.
abbrev pub IsUnique : List RoleBinding → Type 0
IsUnique [] = Unit
IsUnique (b ∷ bs) = (find (key_of b) bs ≡ none) × IsUnique bs

module _ (now : ℕ) (k : Key) (role : String) where
  -- The row after the assignments.
  abbrev pub promoted : RoleBinding → RoleBinding
  promoted b = record b { role = role; updated_at = now }

  is_for-promoted : (j : Key) (b : RoleBinding) → is_for j (promoted b) ≡ is_for j b
  unfolding is_for
  is_for-promoted j b = refl

  find-set_role :
      (j : Key) (e : RoleBinding) (bs : List RoleBinding)
      → find k bs ≡ some e
      → find j (set_role now k role bs)
        ≡ (if is_for j (promoted e) then some (promoted e) else find j bs)
  unfolding find set_role
  find-set_role j e [] h = absurd (ground (arith, h))
  find-set_role j e (b ∷ bs) h =
      let same = is_for-promoted j b in
      let moved = is_for-promoted j e in
      elim (Bool-cases (is_for k b)) [
        | inl y ↦ ground (arith, y, h, same)
        | inr n ↦ elim (Bool-cases (is_for j b)) [
          | inl t ↦
              let other = stays j e (find-is_for k e bs (ground (arith, n, h))) in
              elim (Bool-cases (is_for j e)) [
                | inl q ↦ absurd (ground (arith, n, t, other q))
                | inr miss ↦ ground (arith, n, t, miss, moved)
              ]
          | inr f ↦ let ih = find-set_role j e bs (ground (arith, n, h)) in rw (n, f) ih
        ]
      ]
    where
      stays : (j : Key) (e : RoleBinding) → is_for k e ≡ true → is_for j e ≡ true → j ≡ k
      stays j e p q = is_for_unique k j e p q

  pub grant-granted :
      (by : Option String) (bs : List RoleBinding) (x : RoleBinding × List RoleBinding)
      → grant now k role by bs ≡ ok x
      → granted now k role by bs (find k bs) ≡ x
  unfolding grant
  grant-granted by bs x h = elim (Result-cases (check_grant k role)) [
    | inl (u, e) ↦ ground (arith, e, h)
    | inr (e, refused) ↦ absurd (ground (arith, refused, h))
  ]

  module _ (by : Option String) (bs bs' : List RoleBinding) (rb : RoleBinding) where
    -- What a grant that is accepted leaves behind: a lookup by the key of the grant finds the row
    -- that it returns, which has the role, and every other lookup finds what it found before.
    pub grant-find :
        (j : Key)
        → grant now k role by bs ≡ ok (rb, bs')
        → (is_for k rb ≡ true)
          × (rb.role ≡ role)
          × (find j bs' ≡ (if is_for j rb then some rb else find j bs))
    unfolding grant
    grant-find j h = elim (Option-cases (find k bs)) [
      | inl new ↦
          let g = grant-granted by bs (rb, bs') h in
          let made = new_binding now k role by in
          let self = is_for_refl made in
          let at = find-append j made bs in
          elim (Bool-cases (is_for j made)) [
            | inl y ↦
                let same = is_for_unique k j made self y in
                ground (arith, g, new, self, same, at, y)
            | inr n ↦ ground (arith, g, new, self, at, n)
          ]
      | inr (e, old) ↦
          let g = grant-granted by bs (rb, bs') h in
          let self = find-is_for k e bs old in
          let same = is_for-promoted k e in
          let at = find-set_role j e bs old in ground (arith, g, old, self, same, at)
    ]
