-- ===== src/Schedules/Next/Dates.antt =====
-- Arithmetic on days and times of the day, and the search for a listed weekday.
use rebooter_droids.Base.{
  ℕ, zero, suc, ◌+◌, ◌-◌, ◌*◌, ◌/◌, ◌%◌, ◌≤◌, ◌<◌, true, false, none, some, ◌≡◌, List, day, arith,
  Bool-cases, inl, inr, ltb, ltb→lt,
}
use rebooter_droids.Schedules.Next.{clock, weekday, is_listed, walk, upcoming}

same_instant : (c u : ℕ) → c ≤ u → u % day ≡ c % day → u < c + day → u ≡ c
same_instant c u h e l = omega arith

next_day : (c : ℕ) → (c + day) % day ≡ c % day
next_day c = omega arith

-- An instant at the same time of the day as an unlisted one, and listed itself, is a day later.
past_unlisted :
    (days : List ℕ) (c u : ℕ)
    → is_listed days c ≡ false
    → c ≤ u
    → u % day ≡ c % day
    → is_listed days u ≡ true
    → c + day ≤ u
past_unlisted days c u f l e m = elim (Bool-cases (ltb u (c + day))) [
  | inl near ↦
      let same = same_instant c u l e (ltb→lt u (c + day) near) in
      absurd (ground (arith, same, f, m))
  | inr far ↦ ground (arith, far)
]

-- The walk ends at the first listed day: none before it has the same time of the day.
pub walk-first :
    (n : ℕ) (days : List ℕ) (c t u : ℕ)
    → walk n days c ≡ some t
    → c ≤ u
    → u % day ≡ c % day
    → is_listed days u ≡ true
    → t ≤ u
unfolding walk
walk-first zero days c t u h l e m = absurd (ground (arith, h))
walk-first (suc n) days c t u h l e m = elim (Bool-cases (is_listed days c)) [
  | inl y ↦ let same : c ≡ t = ground (arith, y, h) in omega arith
  | inr f ↦
      walk-first n days (c + day) t u (ground (arith, f, h)) (past_unlisted days c u f l e m)
        (omega (arith, next_day c)) m
]

-- What the walk finds is listed, keeps the time of the day, and lies within its rounds.
pub walk-finds :
    (n : ℕ) (days : List ℕ) (c t : ℕ)
    → walk n days c ≡ some t
    → (is_listed days t ≡ true) × (t % day ≡ c % day) × (c ≤ t) × (t < c + n * day)
unfolding walk
walk-finds zero days c t h = absurd (ground (arith, h))
walk-finds (suc n) days c t h = elim (Bool-cases (is_listed days c)) [
  | inl y ↦ let same : c ≡ t = ground (arith, y, h) in ground (arith, same, y)
  | inr f ↦
      let (m, e, l, r) = walk-finds n days (c + day) t (ground (arith, f, h)) in
      (m, omega (arith, next_day c), omega arith, omega arith)
]

-- The walk misses only if none of its days is listed.
pub walk-none :
    (n : ℕ) (days : List ℕ) (c j : ℕ)
    → walk n days c ≡ none
    → j < n
    → is_listed days (c + j * day) ≡ false
unfolding walk
walk-none zero days c j h l = absurd (omega arith)
walk-none (suc n) days c zero h l = elim (Bool-cases (is_listed days c)) [
  | inl y ↦ absurd (ground (arith, y, h))
  | inr f ↦ let here : c + 0 * day ≡ c = omega arith in rw here f
]
walk-none (suc n) days c (suc i) h l = elim (Bool-cases (is_listed days c)) [
  | inl y ↦ absurd (ground (arith, y, h))
  | inr f ↦
      let there : c + suc i * day ≡ (c + day) + i * day = omega arith in
      rw there (walk-none n days (c + day) i (ground (arith, f, h)) (omega arith))
]

pub listed_day :
    (days : List ℕ) (d : ℕ) (c : ℕ) → d < 7 → weekday (c + ((d + 7 - weekday c) % 7) * day) ≡ d
listed_day days d c h = omega arith

-- The candidate of a clock time: after `now`, within a day, at that time, and the first such.
pub upcoming_lem :
    (now hh mm : ℕ)
    → hh < 24
    → mm < 60
    → let c = upcoming now (now / day * day + clock hh mm) in
      (now < c) × (c ≤ now + day) × (c % day ≡ clock hh mm)
upcoming_lem now hh mm h m = ground arith

pub upcoming-first :
    (now hh mm u : ℕ)
    → hh < 24
    → mm < 60
    → now < u
    → u % day ≡ clock hh mm
    → upcoming now (now / day * day + clock hh mm) ≤ u
upcoming-first now hh mm u h m l e = ground arith
