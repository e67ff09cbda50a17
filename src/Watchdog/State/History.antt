-- ===== src/Watchdog/State/History.antt =====
-- A rule with a single action, not a binding, over a whole history of evaluations: how far apart its actions are, how many failures they
-- take, and how it recovers.
use rebooter_droids.Base.{
  ℕ, ◌+◌, ◌≤◌, ◌<◌, String, Bool, true, false, Option, none, some, ◌≡◌, ◌⊎◌, inl, inr, subst, arith,
  if◌then◌else◌, ltb, seconds, List, [], ◌∷◌, length,
}
use rebooter_droids.Watchdog.Types.{
  armed, firing, Outcome, success, failure, probe_error, other, Leaf, Rule, Hub,
}
use rebooter_droids.Watchdog.State.{in_cooldown, streak_tick}

-- The evaluations of one rule, in order, each with its time and what the probe said.
abbrev pub History : Type 0
History = List (ℕ × Outcome)

-- The rule and the hub after a history, and the times at which the action fired.
pub record Trace : Type 0 where
  pub rule : Rule
  pub hub : Hub
  pub fires : List ℕ

abbrev pub cons_fire : Bool → ℕ → List ℕ → List ℕ
cons_fire b now fires = if b then now ∷ fires else fires

-- Every fire comes at least a cooldown after `since`, and after the fire before it.
abbrev pub Spaced : ℕ → Option ℕ → List ℕ → Type 0
Spaced cooldown since [] = Unit
Spaced cooldown none (t ∷ rest) = Spaced cooldown (some t) rest
Spaced cooldown (some since) (t ∷ rest) =
    (since + seconds cooldown ≤ t) × Spaced cooldown (some t) rest

abbrev pub failed_once : Outcome → ℕ
failed_once failure = 1
failed_once _ = 0

abbrev pub failures : History → ℕ
failures [] = 0
failures ((now, o) ∷ rest) = failed_once o + failures rest

-- The fields of one evaluation that spacing depends on.
streak_tick-cooldown :
    (now : ℕ) (ids : ℕ → String) (id : String) (action : Leaf) (rule : Rule) (o : Outcome) (h : Hub)
    → let t = streak_tick now ids id action rule o h in
      (t.rule.cooldown_seconds ≡ rule.cooldown_seconds)
      × (((t.fired ≡ false) × (t.rule.last_action_at ≡ rule.last_action_at))
          ⊎ ((t.fired ≡ true)
              × (t.rule.last_action_at ≡ some now)
              × (in_cooldown rule now ≡ false)))
unfolding streak_tick
streak_tick-cooldown now ids id action rule success h = ground arith
streak_tick-cooldown now ids id action rule failure h = ground arith
streak_tick-cooldown now ids id action rule probe_error h = ground arith
streak_tick-cooldown now ids id action rule (other text) h = ground arith

Spaced-eq :
    (c c' : ℕ) (l l' : Option ℕ) (fires : List ℕ)
    → c ≡ c'
    → l ≡ l'
    → Spaced c l fires
    → Spaced c' l' fires
Spaced-eq c c' l l' fires p q h =
    subst (λ x. Spaced c' x fires) q (subst (λ x. Spaced x l fires) p h)

Spaced-cons :
    (c now : ℕ) (since : Option ℕ) (fires : List ℕ)
    → (elim since [ none ↦ false | some at ↦ ltb now (at + seconds c) ]) ≡ false
    → Spaced c (some now) fires
    → Spaced c since (now ∷ fires)
Spaced-cons c now none fires e h = h
Spaced-cons c now (some at) fires e h = (ground (arith, e), h)

-- One evaluation never lowers the threshold, adds at most one failure, and fires at the threshold.
streak_tick-threshold :
    (now : ℕ) (ids : ℕ → String) (id : String) (action : Leaf) (rule : Rule) (o : Outcome) (h : Hub)
    → let t = streak_tick now ids id action rule o h in
      (t.rule.failure_threshold ≡ rule.failure_threshold)
      × (t.rule.failure_streak ≤ rule.failure_streak + failed_once o)
      × ((t.fired ≡ false) ⊎ (rule.failure_threshold ≤ rule.failure_streak + failed_once o))
unfolding streak_tick
streak_tick-threshold now ids id action rule success h = ground arith
streak_tick-threshold now ids id action rule failure h = ground arith
streak_tick-threshold now ids id action rule probe_error h = ground arith
streak_tick-threshold now ids id action rule (other text) h = ground arith

-- One success, for a rule that is well and for one that is not.
success-well :
    (now : ℕ) (ids : ℕ → String) (id : String) (action : Leaf) (rule : Rule) (h : Hub)
    → rule.status ≡ armed
    → rule.failure_streak ≡ 0
    → let t = streak_tick now ids id action rule success h in
      (t.rule.status ≡ armed) × (t.rule.failure_streak ≡ 0)
unfolding streak_tick
success-well now ids id action rule h a z = ground arith

success-ill :
    (now : ℕ) (ids : ℕ → String) (id : String) (action : Leaf) (rule : Rule) (h : Hub)
    → (0 < rule.failure_streak) ⊎ (rule.status ≡ firing)
    → let t = streak_tick now ids id action rule success h in
      ((t.rule.status ≡ armed) × (t.rule.failure_streak ≡ 0))
      ⊎ (((0 < t.rule.failure_streak) ⊎ (t.rule.status ≡ firing))
          × (t.rule.recovery_streak ≡ rule.recovery_streak + 1)
          × (t.rule.recovery_threshold ≡ rule.recovery_threshold)
          × (rule.recovery_streak + 1 < rule.recovery_threshold))
unfolding streak_tick
success-ill now ids id action rule h ill = ground arith

abbrev pub successes : List ℕ → History
successes [] = []
successes (now ∷ rest) = (now, success) ∷ successes rest

module _ (ids : ℕ → String) (id : String) (action : Leaf) where
  unfoldable pub watch : Rule → Hub → History → Trace
  watch rule h [] = record { rule = rule; hub = h; fires = [] }
  watch rule h ((now, o) ∷ rest) =
      let t = streak_tick now ids id action rule o h in
      let after = watch t.rule t.hub rest in
      record after { fires = cons_fire t.fired now after.fires }

  -- Whatever the probes say and whenever they are made, two actions of a rule whose action is a
  -- single one, not a binding, are at least the rule's cooldown apart, the first of them counted
  -- from the last action before the history.
  pub watch-Spaced :
      (rule : Rule) (h : Hub) (history : History)
      → Spaced rule.cooldown_seconds rule.last_action_at (watch rule h history).fires
  unfolding watch
  watch-Spaced rule h [] = tt
  watch-Spaced rule h ((now, o) ∷ rest) =
      let t = streak_tick now ids id action rule o h in
      let after = (watch t.rule t.hub rest).fires in
      let facts = streak_tick-cooldown now ids id action rule o h in
      let ih = watch-Spaced t.rule t.hub rest in
      elim facts.1 [
        | inl quiet ↦ rw (quiet.0) (
            Spaced-eq t.rule.cooldown_seconds rule.cooldown_seconds t.rule.last_action_at
              rule.last_action_at after facts.0 quiet.1 ih)
        | inr fired ↦ rw (fired.0) (
            Spaced-cons rule.cooldown_seconds now rule.last_action_at after fired.2 (
              Spaced-eq t.rule.cooldown_seconds rule.cooldown_seconds t.rule.last_action_at
                (some now) after facts.0 fired.1 ih))
      ]

  -- A rule with no failure counted fires only in a history with as many failures as its threshold.
  pub watch-threshold :
      (rule : Rule) (h : Hub) (history : History)
      → 0 < length (watch rule h history).fires
      → rule.failure_threshold ≤ rule.failure_streak + failures history
  unfolding watch
  watch-threshold rule h [] f = absurd (omega arith)
  watch-threshold rule h ((now, o) ∷ rest) f =
      let t = streak_tick now ids id action rule o h in
      let facts = streak_tick-threshold now ids id action rule o h in
      elim facts.2 [
        | inl quiet ↦
            omega (arith, facts.0, facts.1, watch-threshold t.rule t.hub rest (rw (quiet) at f))
        | inr reached ↦ omega arith
      ]

  -- A rule that is armed with no failure counted is left so by successes.
  armed_stays :
      (rule : Rule) (h : Hub) (times : List ℕ)
      → rule.status ≡ armed
      → rule.failure_streak ≡ 0
      → let after = (watch rule h (successes times)).rule in
        (after.status ≡ armed) × (after.failure_streak ≡ 0)
  unfolding watch
  armed_stays rule h [] a z = (a, z)
  armed_stays rule h (now ∷ rest) a z =
      let t = streak_tick now ids id action rule success h in
      let well = success-well now ids id action rule h a z in
      armed_stays t.rule t.hub rest well.0 well.1

  -- A rule whose action is a single one, not a binding, and that has failures counted or is
  -- firing, is armed again, with no failure counted, once the successes in a row, those counted
  -- before included, reach its recovery threshold.
  pub watch-recovers :
      (rule : Rule) (h : Hub) (times : List ℕ)
      → (0 < rule.failure_streak) ⊎ (rule.status ≡ firing)
      → 0 < length times
      → rule.recovery_threshold ≤ rule.recovery_streak + length times
      → let after = (watch rule h (successes times)).rule in
        (after.status ≡ armed) × (after.failure_streak ≡ 0)
  unfolding watch
  watch-recovers rule h [] ill some_time enough = absurd (omega arith)
  watch-recovers rule h (now ∷ rest) ill some_time enough =
      let t = streak_tick now ids id action rule success h in
      elim (success-ill now ids id action rule h ill) [
        | inl well ↦ armed_stays t.rule t.hub rest well.0 well.1
        | inr still ↦
            watch-recovers t.rule t.hub rest still.0 (omega (arith, still.3))
              (omega (arith, still.1, still.2, still.3))
      ]
