-- ===== src/Watchdog/State/Streak.antt =====
-- One evaluation of a rule with a leaf action: when it fires, and what it leaves alone.
use rebooter_droids.Base.{ℕ, ◌+◌, ◌≤◌, String, true, false, some, ◌≡◌, ◌≢◌, ◌↔◌, refl, arith}
use rebooter_droids.Watchdog.Types.{
  firing, Outcome, success, failure, probe_error, other, Leaf, Rule, Hub,
}
use rebooter_droids.Watchdog.State.{in_cooldown, streak_tick}

module _ (now : ℕ) (ids : ℕ → String) (id : String) (action : Leaf) (rule : Rule) (h : Hub) where
  -- The action fires exactly when the probe failed, this failure brings the streak to the threshold
  -- and the cooldown of the last action is over.
  pub streak_tick-fired_iff :
      (o : Outcome)
      → ((streak_tick now ids id action rule o h).fired ≡ true) ↔ (
          (o ≡ failure)
          × (rule.failure_threshold ≤ rule.failure_streak + 1)
          × (in_cooldown rule now ≡ false))
  unfolding streak_tick
  streak_tick-fired_iff success = (ground arith, ground arith)
  streak_tick-fired_iff failure = (ground arith, ground arith)
  streak_tick-fired_iff probe_error = (ground arith, ground arith)
  streak_tick-fired_iff (other text) = (ground arith, ground arith)

  -- What an evaluation that fires leaves behind: the rule is firing, and its cooldown starts now.
  pub streak_tick-after_fire :
      (o : Outcome)
      → let t = streak_tick now ids id action rule o h in
        t.fired ≡ true
        → (t.rule.status ≡ firing)
          × (t.rule.last_action_at ≡ some now)
          × (t.rule.failure_streak ≡ rule.failure_streak + 1)
  unfolding streak_tick
  streak_tick-after_fire success f = ground arith
  streak_tick-after_fire failure f = ground arith
  streak_tick-after_fire probe_error f = ground arith
  streak_tick-after_fire (other text) f = ground arith

-- A probe that neither succeeds nor fails moves no streak and no status, starts no cooldown and
-- sends no command.
pub streak_tick-neutral :
    (now : ℕ) (ids : ℕ → String) (id : String) (action : Leaf) (rule : Rule) (h : Hub) (o : Outcome)
    → o ≢ success
    → o ≢ failure
    → let t = streak_tick now ids id action rule o h in
      (t.fired ≡ false)
      × (t.rule.failure_streak ≡ rule.failure_streak)
      × (t.rule.recovery_streak ≡ rule.recovery_streak)
      × (t.rule.status ≡ rule.status)
      × (t.rule.last_action_at ≡ rule.last_action_at)
      × (t.hub ≡ h)
unfolding streak_tick
streak_tick-neutral now ids id action rule h success p q = absurd (p refl)
streak_tick-neutral now ids id action rule h failure p q = absurd (q refl)
streak_tick-neutral now ids id action rule h probe_error p q = (refl, refl, refl, refl, refl, refl)
streak_tick-neutral now ids id action rule h (other text) p q = (refl, refl, refl, refl, refl, refl)
