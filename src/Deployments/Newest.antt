-- ===== src/Deployments/Newest.antt =====
-- Which row is a device's newest active one, after rows are superseded, added and written.
use rebooter_droids.Base.{
  ◌≤◌, String, Bool, true, false, none, some, List, [], ◌∷◌, ◌++◌, ◌==◌, ◌≡◌, refl, arith, eq_iff,
  ap, ◌∙◌, inl, inr, Bool-cases, Option-cases,
}
use rebooter_droids.Base.Result.{ok}
use rebooter_droids.Base.Table.{Table, get, put}
use rebooter_droids.Base.Table.Keyed.{IsKeyed}
use rebooter_droids.Deployments.Types.{DeploymentAssignment, active_for}
use rebooter_droids.Deployments.Create.{Request, Minted, is_in, new_assignment, assign_all}
use rebooter_droids.Deployments.Device.{newest}
use rebooter_droids.Deployments.Actives.{actives, times, is_in-times, newest-get}

-- A device without active assignments has no newest one.
pub newest-actives :
    (d : String) (t : Table DeploymentAssignment) → actives d t ≡ 0 → newest (active_for d) t ≡ none
unfolding newest actives
newest-actives d [] e = refl
newest-actives d ((i, a) ∷ t) e = ground (arith, e, newest-actives d t)

newest-append_other :
    (p : DeploymentAssignment → Bool) (t : Table DeploymentAssignment) (i : String)
    (a : DeploymentAssignment)
    → p a ≡ false
    → newest p (t ++ (i, a) ∷ []) ≡ newest p t
unfolding newest
newest-append_other p [] i a other = ground (arith, other)
newest-append_other p ((j, w) ∷ t) i a other = ground (arith, newest-append_other p t i a other)

newest-append :
    (p : DeploymentAssignment → Bool) (t : Table DeploymentAssignment) (i : String)
    (a : DeploymentAssignment)
    → newest p t ≡ none
    → p a ≡ true
    → newest p (t ++ (i, a) ∷ []) ≡ some (i, a)
unfolding newest
newest-append p [] i a e passes = ground (arith, passes)
newest-append p ((j, w) ∷ t) i a e passes = elim (Option-cases (newest p t)) [
  | inl nothing ↦ ground (arith, e, nothing, passes, newest-append p t i a nothing passes)
  | inr ((k, v), later) ↦ let no : true ≡ false = ground (arith, e, later) in cc no
]

module _ (m : Minted) (r : Request) (d : String) where
  -- New rows of other devices change nothing.
  pub newest-assign_all_other :
      (ids : List String) (t t' : Table DeploymentAssignment)
      → is_in ids d ≡ false
      → assign_all m r ids t ≡ ok t'
      → newest (active_for d) t' ≡ newest (active_for d) t
  unfolding assign_all
  newest-assign_all_other [] t t' out e = ap (newest (active_for d)) (ground (arith, e))
  newest-assign_all_other (i ∷ ids) t t' out e =
      let row = new_assignment m r i in
      let after : Table DeploymentAssignment = t ++ (m.assignment_id i, row) ∷ [] in
      newest-assign_all_other ids after t' (ground (arith, out)) (ground (arith, e))
      ∙ newest-append_other (active_for d) t (m.assignment_id i) row (ground (arith, out))

  -- The new row of a device that had none active.
  pub newest-assign_all :
      (ids : List String) (t t' : Table DeploymentAssignment)
      → newest (active_for d) t ≡ none
      → is_in ids d ≡ true
      → times d ids ≤ 1
      → assign_all m r ids t ≡ ok t'
      → newest (active_for d) t' ≡ some (m.assignment_id d, new_assignment m r d)
  unfolding assign_all times
  newest-assign_all [] t t' nothing here once e = cc
  newest-assign_all (i ∷ ids) t t' nothing here once e =
      let row = new_assignment m r i in
      let after : Table DeploymentAssignment = t ++ (m.assignment_id i, row) ∷ [] in
      let later : assign_all m r ids after ≡ ok t' = ground (arith, e) in
      elim (Bool-cases (i == d)) [
        | inl same ↦
            let out : is_in ids d ≡ false = ground (arith, same, once, is_in-times d ids) in
            newest-assign_all_other ids after t' out later
            ∙ newest-append (active_for d) t (m.assignment_id i) row nothing (ground (arith, same))
            ∙ ap (λ j. some (m.assignment_id j, new_assignment m r j))
                (ground (arith, same, eq_iff i d))
        | inr other ↦
            newest-assign_all ids after t'
              (newest-append_other (active_for d) t (m.assignment_id i) row (ground (arith, other))
                ∙ nothing)
              (ground (arith, here, other)) (ground (arith, once, other)) later
      ]

-- A row that is written in place of the newest one is the newest, if it passes and is as old.
pub newest-put :
    (p : DeploymentAssignment → Bool) (t : Table DeploymentAssignment) (i : String)
    (new old : DeploymentAssignment)
    → IsKeyed t
    → newest p t ≡ some (i, old)
    → p new ≡ true
    → new.created_at ≡ old.created_at
    → newest p (put i new t) ≡ some (i, new)
unfolding newest put get
newest-put p [] i new old u e passes same = cc
newest-put p ((j, w) ∷ t) i new old (fresh, u) e passes same = elim (Option-cases (newest p t)) [
  | inl nothing ↦ ground (arith, e, nothing, passes, same, eq_iff j i)
  | inr ((k, v), later) ↦
      let below = newest-get p t k v u later in
      let rest = newest-put p t k new v u later passes in
      ground (arith, e, later, below, rest, fresh, passes, same, eq_iff j i)
]
