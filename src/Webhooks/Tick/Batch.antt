-- ===== src/Webhooks/Tick/Batch.antt =====
-- The batch of a tick: due rows only, each once, and at most twenty.
use rebooter_droids.Base.{
  ℕ, zero, suc, ◌≤◌, String, true, Option, none, some, ◌≡◌, [], ◌∷◌, ◌==◌, eq_iff, refl, arith,
  Bool-cases, inl, inr, take, length, length-take_le, if◌then◌else◌,
}
use rebooter_droids.Base.Table.{Table, get}
use rebooter_droids.Base.Table.Keyed.{IsKeyed}
use rebooter_droids.Webhooks.Types.{Delivery, batch_size, is_due}
use rebooter_droids.Webhooks.Tick.{before, due_rows, insert_row, sort_rows, batch}

-- A row that a query keeps.
abbrev pub kept : ℕ → Option Delivery → Option Delivery
kept now none = none
kept now (some d) = if is_due now d then some d else none

get-due_rows :
    (now : ℕ) (j : String) (t : Table Delivery)
    → IsKeyed t
    → get j (due_rows now t) ≡ kept now (get j t)
unfolding get due_rows
get-due_rows now j [] k = refl
get-due_rows now j ((i, d) ∷ t) (fresh, k) = elim (Bool-cases (is_due now d)) [
  | inl y ↦ rw y (ground (arith, y, get-due_rows now j t k))
  | inr n ↦ rw n (elim (Bool-cases (i == j)) [
    | inl same ↦ let ih = get-due_rows now j t k in ground (arith, n, same, ih, eq_iff i j, fresh)
    | inr other ↦ rw other (get-due_rows now j t k)
  ])
]

due_rows-IsKeyed : (now : ℕ) (t : Table Delivery) → IsKeyed t → IsKeyed (due_rows now t)
unfolding due_rows
due_rows-IsKeyed now [] k = tt
due_rows-IsKeyed now ((i, d) ∷ t) (fresh, k) = elim (Bool-cases (is_due now d)) [
  | inl y ↦ rw y (ground (arith, get-due_rows now i t k, fresh), due_rows-IsKeyed now t k)
  | inr n ↦ rw n (due_rows-IsKeyed now t k)
]

get-insert_row :
    (k : String) (d : Delivery) (j : String) (t : Table Delivery)
    → get k t ≡ none
    → get j (insert_row k d t) ≡ (if k == j then some d else get j t)
unfolding get insert_row
get-insert_row k d j [] h = refl
get-insert_row k d j ((i, e) ∷ t) h =
    elim (Bool-cases (before d.next_attempt_at e.next_attempt_at)) [
      | inl y ↦ rw y refl
      | inr n ↦ rw n (elim (Bool-cases (i == k)) [
        | inl same ↦ absurd (ground (arith, h, same))
        | inr other ↦
            let ih = get-insert_row k d j t (rw other at h) in
            ground (arith, other, ih, eq_iff i j, eq_iff k j, eq_iff i k)
      ])
    ]

insert_row-IsKeyed :
    (k : String) (d : Delivery) (t : Table Delivery)
    → get k t ≡ none
    → IsKeyed t
    → IsKeyed (insert_row k d t)
unfolding get insert_row
insert_row-IsKeyed k d [] h u = (refl, tt)
insert_row-IsKeyed k d ((i, e) ∷ t) h (fresh, u) =
    elim (Bool-cases (before d.next_attempt_at e.next_attempt_at)) [
      | inl y ↦ rw y (h, (fresh, u))
      | inr n ↦ rw n (elim (Bool-cases (i == k)) [
        | inl same ↦ absurd (ground (arith, h, same))
        | inr other ↦
            let g = get-insert_row k d i t (rw other at h) in
            (
              ground (arith, g, fresh, other, eq_iff i k, eq_iff k i),
              insert_row-IsKeyed k d t (rw other at h) u,
            )
      ])
    ]

sort_rows-IsKeyed :
    (t : Table Delivery)
    → IsKeyed t
    → IsKeyed (sort_rows t) × ((j : String) → get j (sort_rows t) ≡ get j t)
unfolding get sort_rows
sort_rows-IsKeyed [] u = (tt, λ j. refl)
sort_rows-IsKeyed ((k, d) ∷ t) (fresh, u) =
    let (ih, same) = sort_rows-IsKeyed t u in
    let free : get k (sort_rows t) ≡ none = ground (arith, same k, fresh) in
    (
      insert_row-IsKeyed k d (sort_rows t) free ih,
      λ j. ground (arith, get-insert_row k d j (sort_rows t) free, same j),
    )

-- Taking rows from the front finds no others.
get-take-none : (n : ℕ) (j : String) (t : Table Delivery) → get j t ≡ none → get j (take n t) ≡ none
unfolding get
get-take-none zero j t h = refl
get-take-none (suc n) j [] h = refl
get-take-none (suc n) j ((i, d) ∷ t) h = elim (Bool-cases (i == j)) [
  | inl same ↦ absurd (ground (arith, h, same))
  | inr other ↦ rw other (get-take-none n j t (rw other at h))
]

take-IsKeyed : (n : ℕ) (t : Table Delivery) → IsKeyed t → IsKeyed (take n t)
take-IsKeyed zero t u = tt
take-IsKeyed (suc n) [] u = tt
take-IsKeyed (suc n) ((i, d) ∷ t) (fresh, u) = (get-take-none n i t fresh, take-IsKeyed n t u)

get-take-some :
    (n : ℕ) (j : String) (d : Delivery) (t : Table Delivery)
    → get j (take n t) ≡ some d
    → get j t ≡ some d
unfolding get
get-take-some zero j d t h = absurd (ground (arith, h))
get-take-some (suc n) j d [] h = absurd (ground (arith, h))
get-take-some (suc n) j d ((i, e) ∷ t) h = elim (Bool-cases (i == j)) [
  | inl same ↦ ground (arith, h, same)
  | inr other ↦ rw other (get-take-some n j d t (rw other at h))
]

pub batch-IsKeyed : (now : ℕ) (t : Table Delivery) → IsKeyed t → IsKeyed (batch now t)
unfolding batch
batch-IsKeyed now t u =
    take-IsKeyed batch_size (sort_rows (due_rows now t))
      (sort_rows-IsKeyed (due_rows now t) (due_rows-IsKeyed now t u)).0

-- A row of the batch is a row of the table, and due.
pub batch-due :
    (now : ℕ) (j : String) (d : Delivery) (t : Table Delivery)
    → IsKeyed t
    → get j (batch now t) ≡ some d
    → (get j t ≡ some d) × (is_due now d ≡ true)
unfolding batch
batch-due now j d t u h =
    let found = get-take-some batch_size j d (sort_rows (due_rows now t)) h in
    let sorted = (sort_rows-IsKeyed (due_rows now t) (due_rows-IsKeyed now t u)).1 j in
    kept-some (get j t) (ground (arith, found, sorted, get-due_rows now j t u))
  where
    kept-some : (o : Option Delivery) → kept now o ≡ some d → (o ≡ some d) × (is_due now d ≡ true)
    kept-some none e = absurd (ground (arith, e))
    kept-some (some c) e = elim (Bool-cases (is_due now c)) [
      | inl y ↦ ground (arith, y, e)
      | inr n ↦ absurd (ground (arith, n, e))
    ]

pub batch-length_le : (now : ℕ) (t : Table Delivery) → length (batch now t) ≤ batch_size
unfolding batch
batch-length_le now t = length-take_le batch_size (sort_rows (due_rows now t))
