-- ===== src/Schedules/Next/Laws.antt =====
-- What `compute_next_run_at` promises: the first instant after now at which the schedule is due.
use rebooter_droids.Base.{
  refl, ℕ, ◌+◌, ◌-◌, ◌⊎◌, ◌*◌, ◌/◌, ◌%◌, ◌≤◌, ◌<◌, Bool, true, false, Option, some, ◌≡◌, List, [],
  ◌∷◌, In, day, minutes, nat_eq, Bool-cases, arith, Option-cases, inl, inr,
}
use rebooter_droids.Base.Result.{ok}
use rebooter_droids.Schedules.Types.{Schedule, Recurrence, once, daily, weekly, at}
use rebooter_droids.Schedules.Next.{
  clock, weekday, is_listed, walk, upcoming, recurring, next_by, compute_next_run_at,
}
use rebooter_droids.Schedules.Next.Dates.{
  walk-first, walk-finds, walk-none, listed_day, upcoming_lem, upcoming-first,
}

abbrev pub is_recurring : Recurrence → Bool
is_recurring daily = true
is_recurring weekly = true
is_recurring _ = false

-- The days that a recurrence admits; day 0 is a Monday, 0001-01-01.
abbrev pub Fits : Recurrence → List ℕ → ℕ → Type 0
Fits daily days t = Unit
Fits weekly days t = In (t / day % 7) days
Fits _ days t = ⊥

is_listed-In : (d : ℕ) (days : List ℕ) (t : ℕ) → In d days → weekday t ≡ d → is_listed days t ≡ true
unfolding is_listed
is_listed-In d [] t i e = absurd i
is_listed-In d (x ∷ days) t (inl same) e = ground (arith, same, e)
is_listed-In d (x ∷ days) t (inr i) e = ground (arith, is_listed-In d days t i e)

In-is_listed : (days : List ℕ) (t : ℕ) → is_listed days t ≡ true → In (t / day % 7) days
unfolding is_listed
In-is_listed [] t e = cc
In-is_listed (x ∷ days) t e = elim (Bool-cases (nat_eq (weekday t) x)) [
  | inl same ↦ inl (ground (arith, same))
  | inr other ↦ inr (In-is_listed days t (ground (arith, e, other)))
]

recurring-Fits :
    (now hh mm t : ℕ) (r : Recurrence) (days : List ℕ)
    → hh < 24
    → mm < 60
    → recurring now r days (now / day * day + clock hh mm) ≡ some t
    → (now < t) × (t ≤ now + 7 * day) × (t % day ≡ clock hh mm) × Fits r days t
recurring-Fits now hh mm t daily days h m e =
    let same : upcoming now (now / day * day + clock hh mm) ≡ t = ground (arith, e) in
    let (later, near, sharp) = upcoming_lem now hh mm h m in
    rw (← same) (later, omega arith, sharp, tt)
recurring-Fits now hh mm t weekly [] h m e = absurd (ground (arith, e))
recurring-Fits now hh mm t weekly (d ∷ ds) h m e =
    let c : ℕ = upcoming now (now / day * day + clock hh mm) in
    let (later, near, sharp) = upcoming_lem now hh mm h m in
    let (listed, same, from, within) = walk-finds 7 (d ∷ ds) c t e in
    (omega arith, omega arith, omega arith, In-is_listed (d ∷ ds) t listed)
recurring-Fits now hh mm t once days h m e = absurd (ground (arith, e))
recurring-Fits now hh mm t (Recurrence.other x) days h m e = absurd (ground (arith, e))

recurring-first :
    (now hh mm t u : ℕ) (r : Recurrence) (days : List ℕ)
    → hh < 24
    → mm < 60
    → recurring now r days (now / day * day + clock hh mm) ≡ some t
    → now < u
    → u % day ≡ clock hh mm
    → Fits r days u
    → t ≤ u
recurring-first now hh mm t u daily days h m e l c f =
    let same : upcoming now (now / day * day + clock hh mm) ≡ t = ground (arith, e) in
    rw (← same) (upcoming-first now hh mm u h m l c)
recurring-first now hh mm t u weekly [] h m e l c f = absurd (ground (arith, e))
recurring-first now hh mm t u weekly (d ∷ ds) h m e l c f =
    let (later, near, sharp) = upcoming_lem now hh mm h m in
    walk-first 7 (d ∷ ds) (upcoming now (now / day * day + clock hh mm)) t u e
      (upcoming-first now hh mm u h m l c) (omega arith)
      (is_listed-In (u / day % 7) (d ∷ ds) u f refl)
recurring-first now hh mm t u once days h m e l c f = absurd f
recurring-first now hh mm t u (Recurrence.other x) days h m e l c f = absurd f

-- A schedule that recurs at a time of the day, and the value that the computation returns for it.
next_by-recurring :
    (now hh mm : ℕ) (s : Schedule) (r : Recurrence) (o : Option ℕ)
    → is_recurring r ≡ true
    → s.at_time_utc ≡ at hh mm
    → next_by now s r ≡ ok o
    → (hh < 24) × (mm < 60) × (recurring now r s.weekdays (now / day * day + clock hh mm) ≡ o)
next_by-recurring now hh mm s daily o q a e = ground (arith, a, e)
next_by-recurring now hh mm s weekly o q a e = ground (arith, a, e)
next_by-recurring now hh mm s once o q a e = absurd (ground (arith, q))
next_by-recurring now hh mm s (Recurrence.other x) o q a e = absurd (ground (arith, q))

module _ (now hh mm : ℕ) (s : Schedule) (recurs : is_recurring s.recurrence ≡ true)
    (at_time : s.at_time_utc ≡ at hh mm) where
  -- The next run of a daily or weekly schedule lies after now and within a week of it, at the
  -- schedule's time of the day, and for a weekly one on a listed weekday.
  pub next_run-Fits :
      (t : ℕ)
      → compute_next_run_at now s ≡ ok (some t)
      → (now < t) × (t ≤ now + 7 * day) × (t % day ≡ clock hh mm) × Fits s.recurrence s.weekdays t
  unfolding compute_next_run_at
  next_run-Fits t e =
      let (h, m, same) = next_by-recurring now hh mm s s.recurrence (some t) recurs at_time e in
      recurring-Fits now hh mm t s.recurrence s.weekdays h m same

  -- The next run of a daily or weekly schedule is the first instant that fits: it is after now, at
  -- the schedule's time of the day and on a day that the recurrence admits, and any other instant of
  -- which this holds is no earlier.
  pub next_run-first :
      (t : ℕ)
      → compute_next_run_at now s ≡ ok (some t)
      → (now < t)
        × (t % day ≡ minutes (hh * 60 + mm))
        × Fits s.recurrence s.weekdays t
        × ((u : ℕ)
            → now < u
            → u % day ≡ minutes (hh * 60 + mm)
            → Fits s.recurrence s.weekdays u
            → t ≤ u)
  unfolding compute_next_run_at
  next_run-first t e =
      let (h, m, same) = next_by-recurring now hh mm s s.recurrence (some t) recurs at_time e in
      let (later, near, sharp, fits) =
        recurring-Fits now hh mm t s.recurrence s.weekdays h m same in
      (
        later,
        sharp,
        fits,
        λ u l c f. recurring-first now hh mm t u s.recurrence s.weekdays h m same l c f,
      )

-- A weekly schedule with a clock time and a weekday always has a next run.
recurring_total :
    (now hh mm d : ℕ) (days : List ℕ)
    → d < 7
    → In d days
    → (t : ℕ) × (recurring now weekly days (now / day * day + clock hh mm) ≡ some t)
recurring_total now hh mm d [] l i = absurd i
recurring_total now hh mm d (e ∷ es) l i =
    let c : ℕ = upcoming now (now / day * day + clock hh mm) in
    elim (Option-cases (walk 7 (e ∷ es) c)) [
      | inl missed ↦
          let j : ℕ = (d + 7 - weekday c) % 7 in
          let hit = is_listed-In d (e ∷ es) (c + j * day) i (listed_day (e ∷ es) d c l) in
          let miss = walk-none 7 (e ∷ es) c j missed (omega arith) in
          absurd (ground (arith, hit, miss))
      | inr found ↦ found
    ]

-- A daily schedule, and a weekly one with a weekday between Monday and Sunday, always has a next
-- run, if its time is one that a clock shows.
pub next_run_total :
    (now hh mm d : ℕ) (s : Schedule)
    → s.at_time_utc ≡ at hh mm
    → hh < 24
    → mm < 60
    → (s.recurrence ≡ daily) ⊎ ((s.recurrence ≡ weekly) × (d < 7) × In d s.weekdays)
    → (t : ℕ) × (compute_next_run_at now s ≡ ok (some t))
unfolding compute_next_run_at
next_run_total now hh mm d s a h m (inl e) =
    (upcoming now (now / day * day + clock hh mm), ground (arith, a, e))
next_run_total now hh mm d s a h m (inr (e, l, i)) =
    let (t, found) = recurring_total now hh mm d s.weekdays l i in (t, ground (arith, e, a, found))
