-- ===== src/Schedules/Tick/Once.antt =====
-- One-shot schedules fire at most once in ticks that commit, and no schedule fires before it is due.
use rebooter_droids.Base.{
  ℕ, ◌+◌, ◌≤◌, ◌<◌, String, Bool, true, false, Option, none, some, ◌≡◌, refl, arith, List, [], ◌∷◌,
  Bool-cases, Option-cases, inl, inr, ltb, lt→ltb, is_some,
}
use rebooter_droids.Base.Result.{ok}
use rebooter_droids.Watchdog.Types.{Hub}
use rebooter_droids.Schedules.Types.{Schedule, once}
use rebooter_droids.Schedules.Next.{compute_next_run_at, next_once}
use rebooter_droids.Schedules.Tick.{
  Step, stepped, failed_step, Stats, no_stats, step_at, step, fire_schedule,
}

-- A one-shot schedule that has fired is never due again.
pub next_run-fired :
    (now : ℕ) (s : Schedule)
    → s.recurrence ≡ once
    → is_some s.last_run_at ≡ true
    → compute_next_run_at now s ≡ ok none
unfolding compute_next_run_at
next_run-fired now s o f = rw o (elim (Option-cases s.start_at) [
  | inl missing ↦ ground (arith, missing)
  | inr (t, given) ↦ ground (arith, given, f)
])

next_run-fresh :
    (now : ℕ) (s : Schedule)
    → s.recurrence ≡ once
    → compute_next_run_at now s ≡ ok (next_once now s.start_at s.last_run_at)
unfolding compute_next_run_at
next_run-fresh now s o = rw o refl

module _ (ids : ℕ → String) where
  -- Before its next run, a schedule and the tables are left as they are.
  pub step-early :
      (now t : ℕ) (s : Schedule) (h : Hub) (st : Stats)
      → s.next_run_at ≡ some t
      → now < t
      → step now ids s h st ≡ stepped s h (record st { considered = st.considered + 1 })
  unfolding step
  step-early now t s h st n l = rw (n, lt→ltb now t l) refl

  -- What a tick leaves of a row, and how often it fired, by whether the tick's transaction commits.
  -- A tick that raises, at this row or at another one, leaves the row as it was.
  abbrev pub kept : Bool → Schedule → Step → Schedule × ℕ
  kept true before (stepped s h st) = (s, st.fired)
  kept true before (failed_step e h) = (before, 0)
  kept false before _ = (before, 0)

  -- How often a row fires in the ticks that commit, when ticks come at the given times, whatever
  -- other rows do to the hub between them and whichever ticks are rolled back.
  unfoldable pub fires : List (ℕ × Hub × Bool) → Schedule → ℕ
  fires [] s = 0
  fires ((now, h, commits) ∷ rest) s =
      let (after, fired) = kept commits s (step now ids s h no_stats) in fired + fires rest after

  -- Spent: it has fired, and has no next run.
  abbrev Spent : Schedule → Type 0
  Spent s = (s.recurrence ≡ once) × (is_some s.last_run_at ≡ true) × (s.next_run_at ≡ none)

  step-Spent :
      (now : ℕ) (s : Schedule) (h : Hub)
      → Spent s
      → step now ids s h no_stats
        ≡ stepped (record s { next_run_at = none }) h (record no_stats { considered = 0 + 1 })
  unfolding step
  step-Spent now s h (o, f, n) = rw (n, next_run-fired now s o f) refl

  Spent-fires : (ticks : List (ℕ × Hub × Bool)) (s : Schedule) → Spent s → fires ticks s ≡ 0
  unfolding fires
  Spent-fires [] s p = refl
  Spent-fires ((now, h, false) ∷ rest) s p = omega (arith, Spent-fires rest s p)
  Spent-fires ((now, h, true) ∷ rest) s p =
      let ih = Spent-fires rest (record s { next_run_at = none }) (p.0, p.1, refl) in
      rw (step-Spent now s h p) (omega (arith, ih))

  -- The three ways of a tick on a one-shot schedule that has not fired.
  fresh-fires :
      (now : ℕ) (h : Hub) (rest : List (ℕ × Hub × Bool)) (s : Schedule) (o : Option ℕ)
      → s.recurrence ≡ once
      → s.last_run_at ≡ none
      → ((r : Schedule) → r.recurrence ≡ once → r.last_run_at ≡ none → fires rest r ≤ 1)
      → let out = kept true s (step_at now ids s h (record no_stats { considered = 0 + 1 }) o) in
        out.1 + fires rest out.0 ≤ 1
  fresh-fires now h rest s none c l later =
      let ih = later (record s { next_run_at = next_once now s.start_at s.last_run_at }) c l in
      rw (next_run-fresh now s c) (omega (arith, ih))
  fresh-fires now h rest s (some t) c l later = elim (Bool-cases (ltb now t)) [
    | inl early ↦ rw early (omega (arith, later s c l))
    | inr due ↦
        let (outcome, h') = fire_schedule now ids s h in
        let ran = record s { last_outcome = some outcome; last_run_at = some now } in
        let spent = Spent-fires rest (record ran { next_run_at = none }) (c, refl, refl) in
        rw (due, next_run-fired now ran c refl) (omega (arith, spent))
  ]

  -- A one-shot schedule that has not fired yet fires at most once in the ticks that commit, whenever
  -- the ticks come, whatever the tables are by then, and whichever other ticks are rolled back.
  pub once-fires :
      (ticks : List (ℕ × Hub × Bool)) (s : Schedule)
      → s.recurrence ≡ once
      → s.last_run_at ≡ none
      → fires ticks s ≤ 1
  unfolding fires step
  once-fires [] s c l = omega arith
  once-fires ((now, h, false) ∷ rest) s c l = omega (arith, once-fires rest s c l)
  once-fires ((now, h, true) ∷ rest) s c l =
      fresh-fires now h rest s s.next_run_at c l (once-fires rest)
