-- ===== src/Watchdog/Tick/Guard.antt =====
-- The lockout of protected devices through a whole tick, and what suppresses a rule.
use rebooter_droids.Base.{
  ℕ, String, Bool, true, false, not, ◌||◌, Option, none, some, ◌≡◌, ◌⊎◌, inl, inr, refl, arith, [],
  ◌∷◌, Bool-cases, if_cases, subst, sym,
}
use rebooter_droids.Base.Table.{Table}
use rebooter_droids.Commands.Types.{Store}
use rebooter_droids.Watchdog.Types.{
  Outcome, success, failure, probed, probe_error, other, Edge, active, cleared, Leaf, Action, leaf,
  binding, Rule, outcome, Hub,
}
use rebooter_droids.Watchdog.Actions.{dispatch_one}
use rebooter_droids.Watchdog.Actions.Guard.{
  Guarded, Guarded-refl, Guarded-trans, dispatch_one-Guarded,
}
use rebooter_droids.Watchdog.State.{
  another_success, another_failure, record_event, rule_is_due, in_maintenance_window, on_success,
  on_failure, apply_edge, settle, update_by, streak_tick, binding_tick, edge_of,
}
use rebooter_droids.Watchdog.Tick.{
  Probe, Stats, Round, Pass, is_loaded, tick_rule, tick_rules, tick, no_stats, probe_outcome,
}

-- A call that leaves the tables alone or leaves them as a guarded one does.
Guarded-either : {s s1 s' : Store} → (s' ≡ s) ⊎ (s' ≡ s1) → Guarded s s1 → Guarded s s'
Guarded-either {s} (inl e) g = subst (λ x. Guarded s x) (sym e) (Guarded-refl s)
Guarded-either {s} (inr e) g = subst (λ x. Guarded s x) (sym e) g

module _ (now : ℕ) (ids : ℕ → String) where
  on_success-store :
      (id : String) (rule : Rule) (h : Hub) → (on_success id now rule h).hub.store ≡ h.store
  unfolding on_success
  on_success-store id rule h = ground arith

  on_failure-store :
      (id : String) (action : Leaf) (rule : Rule) (h : Hub)
      → ((on_failure now ids id action rule h).hub.store ≡ h.store)
        ⊎ ((on_failure now ids id action rule h).hub.store
            ≡ (dispatch_one now ids rule.target action h).1.store)
  unfolding on_failure
  on_failure-store id action rule h = ground arith

  streak_tick-Guarded :
      (id : String) (action : Leaf) (rule : Rule) (o : Outcome) (h : Hub)
      → Guarded h.store (streak_tick now ids id action rule o h).hub.store
  unfolding streak_tick
  streak_tick-Guarded id action rule success h =
      Guarded-either
        (inl (
          on_success-store id
            (record rule { last_probed_at = some now; last_outcome = some (probed success) }) h))
        (Guarded-refl h.store)
  streak_tick-Guarded id action rule failure h =
      Guarded-either (on_failure-store id action _ h)
        (dispatch_one-Guarded now ids rule.target action h)
  streak_tick-Guarded id action rule probe_error h = Guarded-refl h.store
  streak_tick-Guarded id action rule (other text) h = Guarded-refl h.store

  apply_edge-store :
      (id : String) (on_active on_clear : Leaf) (o : Outcome) (rule : Rule) (h : Hub)
      (edge : Option Edge)
      → let s' = (apply_edge now ids id on_active on_clear o rule h edge).hub.store in
        (s' ≡ h.store)
        ⊎ (s' ≡ (dispatch_one now ids rule.target on_active h).1.store)
        ⊎ (s' ≡ (dispatch_one now ids rule.target on_clear h).1.store)
  apply_edge-store id on_active on_clear o rule h none = inl refl
  apply_edge-store id on_active on_clear o rule h (some active) = ground arith
  apply_edge-store id on_active on_clear o rule h (some cleared) = ground arith

  settle-Guarded :
      (id : String) (on_active on_clear : Leaf) (o : Outcome) (rule : Rule) (h : Hub)
      → Guarded h.store (settle now ids id on_active on_clear o rule h).hub.store
  settle-Guarded id on_active on_clear o rule h =
      elim (apply_edge-store id on_active on_clear o rule h (edge_of now ids rule)) [
        | inl e ↦ Guarded-either (inl e) (Guarded-refl h.store)
        | inr (inl e) ↦
            Guarded-either (inr e) (dispatch_one-Guarded now ids rule.target on_active h)
        | inr (inr e) ↦ Guarded-either (inr e) (dispatch_one-Guarded now ids rule.target on_clear h)
      ]

  update-Guarded :
      (id : String) (rule : Rule) (o : Outcome) (h : Hub) (action : Action)
      → Guarded h.store (update_by now ids id rule o h action).hub.store
  unfolding binding_tick
  update-Guarded id rule o h (leaf action) = streak_tick-Guarded id action rule o h
  update-Guarded id rule success h (binding a c) =
      settle-Guarded id a c success (another_success now rule) h
  update-Guarded id rule failure h (binding a c) =
      settle-Guarded id a c failure (another_failure now rule) h
  update-Guarded id rule probe_error h (binding a c) = Guarded-refl h.store
  update-Guarded id rule (other text) h (binding a c) = Guarded-refl h.store

module _ (now : ℕ) (ids : ℕ → String) (run_probe : Probe) where
  tick_rule-Guarded :
      (id : String) (rule : Rule) (h : Hub) (st : Stats)
      → Guarded h.store (tick_rule now ids run_probe id rule h st).hub.store
  unfolding tick_rule
  tick_rule-Guarded id rule h st =
      if_cases (λ (r : Round). Guarded h.store r.hub.store) (not (rule_is_due rule now)) _ _
        (Guarded-refl h.store)
        (if_cases (λ (r : Round). Guarded h.store r.hub.store) (in_maintenance_window rule now) _ _
          (Guarded-refl h.store)
          (update-Guarded now ids id rule (probe_outcome (run_probe id rule))
            (record_event id now (outcome (probe_outcome (run_probe id rule))) h) rule.action))

  tick_rules-Guarded :
      (rules : Table Rule) (h : Hub) (st : Stats)
      → Guarded h.store (tick_rules now ids run_probe rules h st).hub.store
  unfolding tick_rules
  tick_rules-Guarded [] h st = Guarded-refl h.store
  tick_rules-Guarded ((id, rule) ∷ rest) h st =
      let r = tick_rule now ids run_probe id rule h st in
      elim (Bool-cases (is_loaded rule)) [
        | inl e ↦
            rw e (
              Guarded-trans (tick_rule-Guarded id rule h st)
                (tick_rules-Guarded rest r.hub r.stats))
        | inr e ↦ rw e (tick_rules-Guarded rest h st)
      ]

  -- A whole tick, whatever its rules, their actions and what the probes say, queues no power
  -- command for a protected device, and protects or unprotects none.
  pub tick-Guarded :
      (is_off maintenance : Bool) (rules : Table Rule) (h : Hub)
      → Guarded h.store (tick now ids run_probe is_off maintenance rules h).hub.store
  unfolding tick
  tick-Guarded is_off maintenance rules h =
      if_cases (λ (p : Pass). Guarded h.store p.hub.store) (is_off || maintenance)
        (record { rules = rules; hub = h; stats = no_stats })
        (tick_rules now ids run_probe rules h no_stats) (Guarded-refl h.store)
        (tick_rules-Guarded rules h no_stats)

-- A rule that is not due, or is inside one of its maintenance windows, is not probed: whatever the
-- probe would say, no command is queued, and its streaks, status and last action stay.
pub tick_rule-suppressed :
    (now : ℕ) (ids : ℕ → String) (p q : Probe) (id : String) (rule : Rule) (h : Hub) (st : Stats)
    → (rule_is_due rule now ≡ false) ⊎ (in_maintenance_window rule now ≡ true)
    → let r = tick_rule now ids p id rule h st in
      (r ≡ tick_rule now ids q id rule h st)
      × (r.hub.store ≡ h.store)
      × (r.rule.failure_streak ≡ rule.failure_streak)
      × (r.rule.recovery_streak ≡ rule.recovery_streak)
      × (r.rule.status ≡ rule.status)
      × (r.rule.last_action_at ≡ rule.last_action_at)
unfolding tick_rule
tick_rule-suppressed now ids p q id rule h st why = elim (Bool-cases (rule_is_due rule now)) [
  | inr late ↦ rw late (refl, refl, refl, refl, refl, refl)
  | inl due ↦ elim why [
    | inl late ↦ absurd (ground (arith, due, late))
    | inr window ↦ rw (due, window) (refl, refl, refl, refl, refl, refl)
  ]
]
