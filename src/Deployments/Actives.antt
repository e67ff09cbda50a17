-- ===== src/Deployments/Actives.antt =====
-- How many active assignments a device has, after rows are superseded, added and written.
use rebooter_droids.Base.{
  ℕ, ◌+◌, ◌≤◌, String, Bool, true, false, not, ◌&&◌, some, List, [], ◌∷◌, ◌++◌, ◌==◌, ◌≡◌, refl,
  arith, eq_iff, ap, subst, ◌∙◌, if◌then◌else◌, inl, inr, Bool-cases, Option-cases,
}
use rebooter_droids.Base.Result.{ok}
use rebooter_droids.Base.Table.{Table, get, put, update}
use rebooter_droids.Base.Table.Keyed.{IsKeyed, append_row-IsKeyed}
use rebooter_droids.Deployments.Types.{superseded, DeploymentAssignment, is_active, active_for}
use rebooter_droids.Deployments.Create.{
  Request, Minted, is_in, supersede, supersede_one, new_assignment, assign_all,
}
use rebooter_droids.Deployments.Device.{newest}

abbrev pub one_if : Bool → ℕ
one_if true = 1
one_if false = 0

unfoldable pub actives : String → Table DeploymentAssignment → ℕ
actives d [] = 0
actives d ((i, a) ∷ t) = one_if (active_for d a) + actives d t

-- How often an id stands in a list.
unfoldable pub times : String → List String → ℕ
times d [] = 0
times d (i ∷ ids) = one_if (i == d) + times d ids

pub times-is_in : (d : String) (ids : List String) → is_in ids d ≡ false → times d ids ≡ 0
unfolding times
times-is_in d [] e = refl
times-is_in d (i ∷ ids) e = ground (arith, e, times-is_in d ids)

pub is_in-times : (d : String) (ids : List String) → is_in ids d ≡ true → 1 ≤ times d ids
unfolding times
is_in-times d [] e = cc
is_in-times d (i ∷ ids) e = ground (arith, e, is_in-times d ids)

active_for-superseded :
    (now : ℕ) (d : String) (a : DeploymentAssignment) (b : Bool)
    → active_for d (if b then record a { state = superseded; updated_at = now } else a)
      ≡ (not b && active_for d a)
active_for-superseded now d a true = ground arith
active_for-superseded now d a false = refl

active_for-supersede_one :
    (now : ℕ) (ids : List String) (d : String) (a : DeploymentAssignment)
    → active_for d (supersede_one now ids a) ≡ (active_for d a && not (is_in ids d))
active_for-supersede_one now ids d a =
    let changed = active_for-superseded now d a (is_in ids a.device_id && is_active a.state) in
    elim (Bool-cases (a.device_id == d)) [
      | inl same ↦
          let here : is_in ids a.device_id ≡ is_in ids d =
            ap (is_in ids) (ground (arith, same, eq_iff a.device_id d)) in
          changed ∙ ground (arith, same, here)
      | inr other ↦ changed ∙ ground (arith, other)
    ]

-- The devices of the update have no active assignment left, and the others have theirs.
pub actives-supersede :
    (now : ℕ) (ids : List String) (d : String) (t : Table DeploymentAssignment)
    → actives d (supersede now ids t) ≡ (if is_in ids d then 0 else actives d t)
unfolding actives supersede update
actives-supersede now ids d [] = ground arith
actives-supersede now ids d ((i, a) ∷ t) =
    ground (arith, active_for-supersede_one now ids d a, actives-supersede now ids d t)

pub actives-append :
    (d : String) (t u : Table DeploymentAssignment) → actives d (t ++ u) ≡ actives d t + actives d u
unfolding actives
actives-append d [] u = omega arith
actives-append d ((i, a) ∷ t) u = omega (arith, actives-append d t u)

-- Each id in the list adds one.
pub actives-assign_all :
    (m : Minted) (r : Request) (d : String) (ids : List String) (t t' : Table DeploymentAssignment)
    → assign_all m r ids t ≡ ok t'
    → actives d t' ≡ actives d t + times d ids
unfolding assign_all times actives
actives-assign_all m r d [] t t' e = ground (arith, e)
actives-assign_all m r d (i ∷ ids) t t' e =
    let row : Table DeploymentAssignment = (m.assignment_id i, new_assignment m r i) ∷ [] in
    ground (arith, e, actives-append d t row, actives-assign_all m r d ids (t ++ row) t')

pub assign_all-IsKeyed :
    (m : Minted) (r : Request) (ids : List String) (t t' : Table DeploymentAssignment)
    → IsKeyed t
    → assign_all m r ids t ≡ ok t'
    → IsKeyed t'
unfolding assign_all
assign_all-IsKeyed m r [] t t' u e = subst IsKeyed (ground (arith, e)) u
assign_all-IsKeyed m r (i ∷ ids) t t' u e = elim (Option-cases (get (m.assignment_id i) t)) [
  | inl free ↦
      let a = new_assignment m r i in
      assign_all-IsKeyed m r ids (t ++ (m.assignment_id i, a) ∷ []) t'
        (append_row-IsKeyed (m.assignment_id i) a t free u) (ground (arith, free, e))
  | inr (a, taken) ↦ let no : true ≡ false = ground (arith, taken, e) in cc no
]

-- A row that is written counts where the old one did.
pub actives-put :
    (d id : String) (new old : DeploymentAssignment) (t : Table DeploymentAssignment)
    → get id t ≡ some old
    → actives d (put id new t) + one_if (active_for d old) ≡ actives d t + one_if (active_for d new)
unfolding actives put get
actives-put d id new old [] there = cc
actives-put d id new old ((j, a) ∷ t) there =
    ground (arith, there, eq_iff j id, actives-put d id new old t)

-- The row that is found passes the test and stands in the table.
pub newest-get :
    (p : DeploymentAssignment → Bool) (t : Table DeploymentAssignment) (i : String)
    (a : DeploymentAssignment)
    → IsKeyed t
    → newest p t ≡ some (i, a)
    → (get i t ≡ some a) × (p a ≡ true)
unfolding newest get
newest-get p [] i a u e = cc
newest-get p ((j, w) ∷ t) i a (fresh, u) e = elim (Option-cases (newest p t)) [
  | inl nothing ↦ ground (arith, e, nothing, eq_iff j i)
  | inr ((k, v), later) ↦
      let below = newest-get p t k v u later in ground (arith, e, later, below, fresh, eq_iff j i)
]
