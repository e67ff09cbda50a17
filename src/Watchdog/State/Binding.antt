-- ===== src/Watchdog/State/Binding.antt =====
-- Binding rules: when an edge is applied, when the steady state is left alone, and when it is not.
use rebooter_droids.Base.{
  ℕ, ◌+◌, ◌≤◌, max, String, true, some, ◌≡◌, ◌⊎◌, inl, inr, refl, arith, List, [], ◌∷◌, ◌∙◌,
}
use rebooter_droids.Watchdog.Types.{
  armed, firing, Outcome, success, failure, probe_error, other, active, cleared, binding_applied,
  Leaf, Rule, Hub,
}
use rebooter_droids.Watchdog.State.{binding_tick}

module _ (ids : ℕ → String) (id : String) (on_active on_clear : Leaf) where
  -- An edge is applied only by a probe that agrees with it, after as many probes in a row as its
  -- threshold asks for: `active` by successes, which leaves the rule firing, `cleared` by failures,
  -- which leaves it armed.
  pub binding_tick-edge :
      (now : ℕ) (rule : Rule) (o : Outcome) (h : Hub)
      → let t = binding_tick now ids id on_active on_clear rule o h in
        t.fired ≡ true
        → ((o ≡ success)
            × (max 1 rule.recovery_threshold ≤ rule.recovery_streak + 1)
            × (t.rule.status ≡ firing)
            × (t.rule.last_outcome ≡ some (binding_applied active)))
          ⊎ ((o ≡ failure)
              × (max 1 rule.failure_threshold ≤ rule.failure_streak + 1)
              × (t.rule.status ≡ armed)
              × (t.rule.last_outcome ≡ some (binding_applied cleared)))
  unfolding binding_tick
  binding_tick-edge now rule success h f = inl (refl, ground arith, ground arith, ground arith)
  binding_tick-edge now rule failure h f = inr (refl, ground arith, ground arith, ground arith)
  binding_tick-edge now rule probe_error h f = ground arith
  binding_tick-edge now rule (other text) h f = ground arith

  -- The rule and the hub after so many successes in a row, at the times given.
  unfoldable pub succeed : Rule → Hub → List ℕ → Rule × Hub
  succeed rule h [] = (rule, h)
  succeed rule h (now ∷ rest) =
      let t = binding_tick now ids id on_active on_clear rule success h in succeed t.rule t.hub rest

  -- One success in the steady state.
  success-steady :
      (now : ℕ) (rule : Rule) (h : Hub)
      → rule.last_outcome ≡ some (binding_applied active)
      → max 1 rule.recovery_threshold ≤ rule.recovery_streak
      → let t = binding_tick now ids id on_active on_clear rule success h in
        (t.hub ≡ h)
        × (t.rule.last_outcome ≡ some (binding_applied active))
        × (max 1 t.rule.recovery_threshold ≤ t.rule.recovery_streak)
  unfolding binding_tick
  success-steady now rule h m s = ground arith

  -- Once the active edge is applied, any number of further successes does nothing: no command is
  -- queued and nothing is logged.
  pub succeed-steady :
      (rule : Rule) (h : Hub) (times : List ℕ)
      → rule.last_outcome ≡ some (binding_applied active)
      → max 1 rule.recovery_threshold ≤ rule.recovery_streak
      → (succeed rule h times).1 ≡ h
  unfolding succeed
  succeed-steady rule h [] m s = refl
  succeed-steady rule h (now ∷ rest) m s =
      let t = binding_tick now ids id on_active on_clear rule success h in
      let steady = success-steady now rule h m s in
      succeed-steady t.rule t.hub rest steady.1 steady.2 ∙ steady.0
