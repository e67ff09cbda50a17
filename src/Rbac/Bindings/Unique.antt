-- ===== src/Rbac/Bindings/Unique.antt =====
-- That a user has at most one binding for each scope, and what a revocation leaves.
use rebooter_droids.Base.{
  ℕ, String, Option, none, ◌≡◌, ◌⊎◌, List, [], ◌∷◌, ◌++◌, refl, arith, is_some, subst, Bool-cases,
  Option-cases, inl, inr,
}
use rebooter_droids.Base.Result.{ok}
use rebooter_droids.Rbac.Bindings.{
  RoleBinding, Key, is_for, find, set_role, delete_first, grant, new_binding, revoke,
}
use rebooter_droids.Rbac.Bindings.Laws.{
  key_of, key_of-is_for, is_for_refl, is_for_unique, find-append, grant-granted, IsUnique,
}

append-IsUnique :
    (b : RoleBinding) (bs : List RoleBinding)
    → find (key_of b) bs ≡ none
    → IsUnique bs
    → IsUnique (bs ++ b ∷ [])
unfolding find
append-IsUnique b [] h u = (refl, tt)
append-IsUnique b (c ∷ bs) h (here, later) = elim (Bool-cases (is_for (key_of b) c)) [
  | inl y ↦ absurd (ground (arith, y, h))
  | inr n ↦ (
    elim (Bool-cases (is_for (key_of c) b)) [
      | inl z ↦
          let same = key_of-is_for (key_of c) b z in absurd (ground (arith, n, same, is_for_refl c))
      | inr m ↦ ground (arith, m, here, find-append (key_of c) b bs)
    ],
    append-IsUnique b bs (ground (arith, n, h)) later,
  )
]

is_for-assigned :
    (now : ℕ) (role : String) (j : Key) (b : RoleBinding)
    → is_for j (record b { role = role; updated_at = now }) ≡ is_for j b
unfolding is_for
is_for-assigned now role j b = refl

set_role-find-none :
    (now : ℕ) (k : Key) (role : String) (j : Key) (bs : List RoleBinding)
    → find j bs ≡ none
    → find j (set_role now k role bs) ≡ none
unfolding find set_role
set_role-find-none now k role j [] h = refl
set_role-find-none now k role j (b ∷ bs) h = elim (Bool-cases (is_for j b)) [
  | inl y ↦ absurd (ground (arith, y, h))
  | inr n ↦
      let ih = set_role-find-none now k role j bs (ground (arith, n, h)) in
      let same = is_for-assigned now role j b in ground (arith, n, h, ih, same)
]

set_role-IsUnique :
    (now : ℕ) (k : Key) (role : String) (bs : List RoleBinding)
    → IsUnique bs
    → IsUnique (set_role now k role bs)
unfolding set_role
set_role-IsUnique now k role [] u = tt
set_role-IsUnique now k role (b ∷ bs) (here, later) = elim (Bool-cases (is_for k b)) [
  | inl y ↦ rw y (here, later)
  | inr n ↦
      rw n (set_role-find-none now k role (key_of b) bs here, set_role-IsUnique now k role bs later)
]

-- A grant keeps the bindings unique: one for each user, scope type and scope.
pub grant-IsUnique :
    (now : ℕ) (k : Key) (role : String) (by : Option String) (bs bs' : List RoleBinding)
    (rb : RoleBinding)
    → IsUnique bs
    → grant now k role by bs ≡ ok (rb, bs')
    → IsUnique bs'
grant-IsUnique now k role by bs bs' rb u h = elim (Option-cases (find k bs)) [
  | inl new ↦
      let g = grant-granted now k role by bs (rb, bs') h in
      let step = append-IsUnique (new_binding now k role by) bs new u in
      subst IsUnique (ground (arith, g, new)) step
  | inr (e, old) ↦
      let g = grant-granted now k role by bs (rb, bs') h in
      let step = set_role-IsUnique now k role bs u in subst IsUnique (ground (arith, g, old)) step
]

delete-find-none :
    (k j : Key) (bs : List RoleBinding) → find j bs ≡ none → find j (delete_first k bs) ≡ none
unfolding find delete_first
delete-find-none k j [] h = refl
delete-find-none k j (b ∷ bs) h = elim (Bool-cases (is_for j b)) [
  | inl y ↦ absurd (ground (arith, y, h))
  | inr n ↦ ground (arith, n, h, delete-find-none k j bs (ground (arith, n, h)))
]

-- A revocation keeps the bindings unique.
pub revoke-IsUnique : (k : Key) (bs : List RoleBinding) → IsUnique bs → IsUnique (revoke k bs).1
unfolding revoke delete_first
revoke-IsUnique k [] u = tt
revoke-IsUnique k (b ∷ bs) (here, later) = elim (Bool-cases (is_for k b)) [
  | inl y ↦ rw y later
  | inr n ↦ rw n (delete-find-none k (key_of b) bs here, revoke-IsUnique k bs later)
]

-- Where the bindings are unique, a revocation says whether there was a binding of the key, leaves
-- none, and leaves every other lookup as it was.
pub revoke-find :
    (k j : Key) (bs : List RoleBinding)
    → IsUnique bs
    → ((revoke k bs).0 ≡ is_some (find k bs))
      × (find k (revoke k bs).1 ≡ none)
      × ((j ≡ k) ⊎ (find j (revoke k bs).1 ≡ find j bs))
unfolding revoke delete_first find
revoke-find k j [] u = (refl, refl, inr refl)
revoke-find k j (b ∷ bs) (here, later) = elim (Bool-cases (is_for k b)) [
  | inl y ↦ rw y (
    refl,
    ground (arith, here, key_of-is_for k b y),
    elim (Bool-cases (is_for j b)) [
      | inl z ↦ inl (is_for_unique k j b y z)
      | inr m ↦ inr (rw m refl)
    ],
  )
  | inr n ↦
      let (said, gone, kept) = revoke-find k j bs later in
      rw n (refl, rw n gone, elim kept [ inl same ↦ inl same | inr e ↦ inr (ground (arith, e)) ])
]
