-- ===== src/Commands/Lifecycle/Delivery.antt =====
-- Which commands `list_pending_for_device` hands to a device, in which order, and how long a
-- hand-off keeps other channels from delivering them again.
use rebooter_droids.Base.{
  ℕ, ◌+◌, ◌≤◌, ◌<◌, String, Bool, true, Option, inl, inr, none, some, ◌≡◌, ◌↔◌, ◌⊎◌, arith, refl,
  subst, eq_iff, ◌&&◌, List, [], ◌∷◌, if◌then◌else◌, leb, Bool-cases, In, seconds,
}
use rebooter_droids.Base.Table.{Table, get, update, get-update}
use rebooter_droids.Base.Table.Keyed.{IsKeyed, update-IsKeyed, get_of_In, get-In}
use rebooter_droids.Commands.Types.{
  Command, Store, Status, is_active, is_pending, pending, accepted, running,
}
use rebooter_droids.Commands.Lifecycle.{
  out_of_grace, is_deliverable, mark, insert_row, sort_rows, selected, delivered,
  list_pending_for_device,
}

-- The row as a call leaves it: one that is pending and marked is accepted and stamped.
abbrev pub handed : Bool → ℕ → Command → Command
handed m now c =
    if m && is_pending c.status then record c { status = accepted; delivered_at = some now } else c

-- The device's command, still active, not expired, and outside the grace window: there is no grace,
-- or the command was never handed off, or `grace` seconds ago or before.
pub record IsDue (now : ℕ) (device_id : String) (grace : Option ℕ) (c : Command) : Type 0 where
  pub own : c.device_id ≡ device_id
  pub active : (c.status ≡ pending) ⊎ ((c.status ≡ accepted) ⊎ (c.status ≡ running))
  pub alive : now < c.expires_at
  pub graced : (g at : ℕ) → grace ≡ some g → c.delivered_at ≡ some at → at + seconds g ≤ now

out_of_grace_iff :
    (now : ℕ) (grace delivered : Option ℕ)
    → (out_of_grace now grace delivered ≡ true)
      ↔ ((g at : ℕ) → grace ≡ some g → delivered ≡ some at → at + seconds g ≤ now)
out_of_grace_iff now none delivered = (λ e g at no _. absurd (ground (arith, no)), λ h. refl)
out_of_grace_iff now (some g) none = (λ e g' at _ no. absurd (ground (arith, no)), λ h. refl)
out_of_grace_iff now (some g) (some at) =
    (λ e g' at' p q. ground (arith, e, p, q), λ h. ground (arith, h g at refl refl))

is_active_iff :
    (s : Status) → (is_active s ≡ true) ↔ ((s ≡ pending) ⊎ ((s ≡ accepted) ⊎ (s ≡ running)))
is_active_iff s = (ground arith, ground arith)

pub deliverable-IsDue_iff :
    (now : ℕ) (device_id : String) (grace : Option ℕ) (c : Command)
    → (is_deliverable now device_id grace c ≡ true) ↔ IsDue now device_id grace c
deliverable-IsDue_iff now device_id grace c =
    let graced = out_of_grace_iff now grace c.delivered_at in
    let active = is_active_iff c.status in
    (
      λ e. record {
        own = ground (arith, e, eq_iff c.device_id device_id);
        active = active.0 (ground (arith, e));
        alive = ground (arith, e);
        graced = graced.0 (ground (arith, e));
      },
      λ h. ground (
        arith,
        eq_iff c.device_id device_id,
        h.own,
        active.1 h.active,
        h.alive,
        graced.1 h.graced,
      ),
    )

handed-mark : (m : Bool) (now : ℕ) (c : Command) → handed m now c ≡ (if m then mark now c else c)
handed-mark m now c = ground arith

-- Sorting only reorders.
In-insert_row :
    (x row : String × Command) (rows : List (String × Command))
    → In x (insert_row row rows) ↔ ((x ≡ row) ⊎ In x rows)
unfolding insert_row
In-insert_row x (k, c) [] = (λ i. i, λ i. i)
In-insert_row x (k, c) ((j, d) ∷ rest) = elim (Bool-cases (leb c.created_at d.created_at)) [
  | inl e ↦ rw e (λ i. i, λ i. i)
  | inr e ↦
      let ih = In-insert_row x (k, c) rest in
      rw e (
        λ i. elim i [
          | inl p ↦ inr (inl p)
          | inr q ↦ elim (ih.0 q) [ inl p ↦ inl p | inr r ↦ inr (inr r) ]
        ],
        λ i. elim i [
          | inl p ↦ inr (ih.1 (inl p))
          | inr (inl p) ↦ inl p
          | inr (inr r) ↦ inr (ih.1 (inr r))
        ],
      )
]

In-sort_rows :
    (x : String × Command) (rows : List (String × Command)) → In x (sort_rows rows) ↔ In x rows
unfolding sort_rows
In-sort_rows x [] = (λ i. i, λ i. i)
In-sort_rows x (row ∷ rest) =
    let here = In-insert_row x row (sort_rows rest) in
    let ih = In-sort_rows x rest in
    (
      λ i. elim (here.0 i) [ inl p ↦ inl p | inr q ↦ inr (ih.0 q) ],
      λ i. here.1 (elim i [ inl p ↦ inl p | inr q ↦ inr (ih.1 q) ]),
    )

-- Ascending by creation time.
abbrev pub IsAscending : List (String × Command) → Type 0
IsAscending [] = Unit
IsAscending ((k, c) ∷ []) = Unit
IsAscending ((k, c) ∷ (j, d) ∷ rest) = (c.created_at ≤ d.created_at) × IsAscending ((j, d) ∷ rest)

insert_row-IsAscending :
    (row : String × Command) (rows : List (String × Command))
    → IsAscending rows
    → IsAscending (insert_row row rows)
unfolding insert_row
insert_row-IsAscending (k, c) [] h = tt
insert_row-IsAscending (k, c) ((j, d) ∷ []) h = ground arith
insert_row-IsAscending (k, c) ((j, d) ∷ (i, e) ∷ rest) h =
    ground (arith, insert_row-IsAscending (k, c) ((i, e) ∷ rest))

sort_rows-IsAscending : (rows : List (String × Command)) → IsAscending (sort_rows rows)
unfolding sort_rows
sort_rows-IsAscending [] = tt
sort_rows-IsAscending (row ∷ rest) =
    insert_row-IsAscending row (sort_rows rest) (sort_rows-IsAscending rest)

module _ (now : ℕ) (device_id : String) (m : Bool) (grace : Option ℕ) where
  In-selected :
      (k : String) (c' : Command) (t : Table Command)
      → In (k, c') (selected now device_id m grace t) ↔ (
          (c : Command) × In (k, c) t
          × (is_deliverable now device_id grace c ≡ true)
          × (c' ≡ handed m now c))
  unfolding selected
  In-selected k c' [] = (λ i. absurd i, λ w. w.1)
  In-selected k c' ((j, d) ∷ t) =
      let ih = In-selected k c' t in
      elim (Bool-cases (is_deliverable now device_id grace d)) [
        | inl e ↦ rw e (
          λ i. elim i [
            | inl p ↦ (d, inl (ground (arith, p)), e, ground (arith, p))
            | inr q ↦ let w = ih.0 q in (w.0, inr w.1, w.2, w.3)
          ],
          λ w. elim w.1 [
            | inl p ↦ inl (ground (arith, p, w.3))
            | inr q ↦ inr (ih.1 (w.0, q, w.2, w.3))
          ],
        )
        | inr e ↦ rw e (
          λ i. let w = ih.0 i in (w.0, inr w.1, w.2, w.3),
          λ w. elim w.1 [
            | inl p ↦ absurd (ground (arith, p, e, w.2))
            | inr q ↦ ih.1 (w.0, q, w.2, w.3)
          ],
        )
      ]

  -- Of a table without two rows of one id, the result lists exactly the device's commands that are
  -- active, not expired and outside the grace window, each as the call leaves it: a pending one
  -- accepted and stamped, if the call marks.
  pub list_pending-In_iff :
      (s : Store) (k : String) (c' : Command)
      → IsKeyed s.commands
      → In (k, c') (list_pending_for_device now device_id m grace s).0 ↔ (
          (c : Command) × (get k s.commands ≡ some c)
          × IsDue now device_id grace c
          × (c' ≡ handed m now c))
  unfolding list_pending_for_device
  list_pending-In_iff s k c' keyed =
      let sorted = In-sort_rows (k, c') (selected now device_id m grace s.commands) in
      let chosen = In-selected k c' s.commands in
      (
        λ i.
            let w = chosen.0 (sorted.0 i) in
            (
              w.0,
              get_of_In k w.0 s.commands keyed w.1,
              (deliverable-IsDue_iff now device_id grace w.0).0 w.2,
              w.3,
            ),
        λ w. sorted.1 (
            chosen.1 (
              w.0,
              get-In k w.0 s.commands w.1,
              (deliverable-IsDue_iff now device_id grace w.0).1 w.2,
              w.3,
            )),
      )

  -- Oldest first.
  pub list_pending-IsAscending :
      (s : Store) → IsAscending (list_pending_for_device now device_id m grace s).0
  unfolding list_pending_for_device
  list_pending-IsAscending s = sort_rows-IsAscending (selected now device_id m grace s.commands)

-- A command that one channel hands off at time `t1` (it was pending, listed and marked by the call,
-- whatever grace that call had) is in no list that a poll with a grace of `g` seconds fetches before
-- `t1` plus the grace has passed.
pub grace-no_redelivery :
    (t1 t2 g : ℕ) (grace : Option ℕ) (device_id : String) (m2 : Bool) (s : Store) (k : String)
    (c handed_off c' : Command)
    → IsKeyed s.commands
    → get k s.commands ≡ some c
    → is_pending c.status ≡ true
    → In (k, handed_off) (list_pending_for_device t1 device_id true grace s).0
    → t2 < t1 + seconds g
    → ¬ In
        (k, c')
        (list_pending_for_device t2 device_id m2
          (some g)
          (list_pending_for_device t1 device_id true grace s).1).0
unfolding list_pending_for_device
grace-no_redelivery t1 t2 g grace device_id m2 s k c handed_off c' keyed found waits listed early
      i =
    absurd clash
  where
    mark_row : String → Command → Command
    mark_row _ c = delivered t1 device_id true grace c

    s1 : Store
    s1 = record s { commands = update mark_row s.commands }

    due : is_deliverable t1 device_id grace c ≡ true
    due =
        let w = (list_pending-In_iff t1 device_id true grace s k handed_off keyed).0 listed in
        let same : w.0 ≡ c = ground (arith, found, w.1) in
        subst (λ x. is_deliverable t1 device_id grace x ≡ true) same
          ((deliverable-IsDue_iff t1 device_id grace w.0).1 w.2)

    marked : get k s1.commands ≡ some (mark t1 c)
    marked = ground (arith, get-update mark_row k s.commands, found, due)

    clash : ⊥
    clash =
        let w =
          (list_pending-In_iff t2 device_id m2 (some g) s1 k c'
              (update-IsKeyed mark_row s.commands keyed)).0
            i in
        let same : w.0 ≡ mark t1 c = ground (arith, marked, w.1) in
        let late : t1 + seconds g ≤ t2 = w.2.graced g t1 refl (ground (arith, same, waits)) in
        omega (arith, late)
