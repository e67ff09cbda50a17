-- ===== src/Watchdog/State.antt =====
-- The rule state machine: app/services/watchdog_runtime/_state.py.
pub mod Streak
pub mod History
pub mod Binding
use rebooter_droids.Base.{
  ℕ, ◌+◌, max, String, Bool, true, false, ◌&&◌, ◌||◌, Option, none, some, List, [], ◌∷◌, ◌++◌, leb,
  ltb, seconds, if◌then◌else◌,
}
use rebooter_droids.Watchdog.Types.{
  armed, firing, is_firing, Outcome, success, failure, Edge, active, cleared, LastOutcome, probed,
  binding_applied, binding_settling, Leaf, Action, leaf, binding, Window, malformed, span, Rule,
  EventKind, recovery, cooldown_skip, action_fired, binding_edge, rule_fired, escalation_webhook,
  rule_escalated, Hub,
}
use rebooter_droids.Watchdog.Actions.{dispatch_one}

-- `_rule_is_due`: `now - last >= window`, written without a difference.
unfoldable pub rule_is_due : Rule → ℕ → Bool
rule_is_due rule now = elim rule.last_probed_at [
  | none ↦ true
  | some at ↦ leb (at + seconds rule.window_seconds) now
]

unfoldable pub in_window : List Window → ℕ → Bool
in_window [] now = false
in_window (malformed ∷ ws) now = in_window ws now
in_window (span start stop ∷ ws) now = leb start now && leb now stop || in_window ws now

-- `_in_maintenance_window`
abbrev pub in_maintenance_window : Rule → ℕ → Bool
in_maintenance_window rule now = in_window rule.maintenance_windows now

abbrev pub record_event : String → ℕ → EventKind → Hub → Hub
record_event id now kind h = record h {
  events = h.events ++ record { rule_id = id; at = now; kind = kind } ∷ [];
}

-- `_run_escalation_and_emit`: best effort, and cut off from the tick.
abbrev escalate : String → Option String → Hub → Hub
escalate id none h = record h { notices = h.notices ++ rule_fired id ∷ [] }
escalate id (some url) h = record h {
  notices = h.notices ++ (rule_fired id ∷ escalation_webhook id url ∷ rule_escalated id ∷ []);
}

-- The cooldown gate: `now - last_action_at < cooldown`.
abbrev pub in_cooldown : Rule → ℕ → Bool
in_cooldown rule now = elim rule.last_action_at [
  | none ↦ false
  | some at ↦ ltb now (at + seconds rule.cooldown_seconds)
]

-- Whether the action fired, the rule and the hub after an evaluation.
pub record Turn : Type 0 where
  pub fired : Bool
  pub rule : Rule
  pub hub : Hub

abbrev turn : Bool → Rule → Hub → Turn
turn fired rule h = record { fired = fired; rule = rule; hub = h }

-- `if rule.failure_streak > 0 or rule.status == FIRING`
unfoldable pub on_success : String → ℕ → Rule → Hub → Turn
on_success id now rule h =
    if ltb 0 rule.failure_streak || is_firing rule.status
    then if leb rule.recovery_threshold (rule.recovery_streak + 1)
      then turn false (record rule { status = armed; failure_streak = 0; recovery_streak = 0 })
          (record_event id now recovery h)
      else turn false (record rule { recovery_streak = rule.recovery_streak + 1 }) h
    else turn false (record rule { recovery_streak = 0 }) h

-- The streaks of a binding rule after a probe that succeeds or fails.
abbrev pub another_success : ℕ → Rule → Rule
another_success now rule = record rule {
  failure_streak = 0;
  recovery_streak = rule.recovery_streak + 1;
  last_probed_at = some now;
}

abbrev pub another_failure : ℕ → Rule → Rule
another_failure now rule = record rule {
  failure_streak = rule.failure_streak + 1;
  recovery_streak = 0;
  last_probed_at = some now;
}

module _ (now : ℕ) (ids : ℕ → String) where
  -- `_fire_action`, the status, and what is told to the outside.
  abbrev fire : String → Leaf → Rule → Hub → Turn
  fire id action rule h =
      let (result, h') = dispatch_one now ids rule.target action h in
      turn true (record rule { status = firing; last_action_at = some now })
        (escalate id rule.escalation (record_event id now (action_fired result) h'))

  -- `rule` has the streak counted already.
  unfoldable pub on_failure : String → Leaf → Rule → Hub → Turn
  on_failure id action rule h =
      if ltb rule.failure_streak rule.failure_threshold
      then turn false rule h
      else if in_cooldown rule now
      then turn false rule (record_event id now (cooldown_skip rule.failure_streak) h)
      else fire id action rule h

  -- The part of `_update_state_and_maybe_fire` for a rule with a leaf action.
  unfoldable pub streak_tick : String → Leaf → Rule → Outcome → Hub → Turn
  unfolding on_success on_failure
  streak_tick id action rule success h =
      on_success id now
        (record rule { last_probed_at = some now; last_outcome = some (probed success) }) h
  streak_tick id action rule failure h =
      on_failure id action
        (record rule {
          failure_streak = rule.failure_streak + 1;
          recovery_streak = 0;
          last_probed_at = some now;
          last_outcome = some (probed failure);
        })
        h
  streak_tick id action rule o h =
      turn false (record rule { last_probed_at = some now; last_outcome = some (probed o) }) h

  -- The edge that the streaks assert, if any.
  abbrev pub edge_of : Rule → Option Edge
  edge_of rule =
      if leb (max 1 rule.recovery_threshold) rule.recovery_streak
      then some active
      else if leb (max 1 rule.failure_threshold) rule.failure_streak
      then some cleared
      else none

  -- `rule.last_outcome == f"binding:{edge}"`
  abbrev pub is_marked : Option LastOutcome → Edge → Bool
  is_marked (some (binding_applied active)) active = true
  is_marked (some (binding_applied cleared)) cleared = true
  is_marked _ _ = false

  abbrev pub leaf_of : Leaf → Leaf → Edge → Leaf
  leaf_of on_active on_clear active = on_active
  leaf_of on_active on_clear cleared = on_clear

  -- The edge is applied unless the marker says that it is.
  abbrev pub apply_edge : String → Leaf → Leaf → Outcome → Rule → Hub → Option Edge → Turn
  apply_edge id on_active on_clear o rule h none =
      turn false (record rule { last_outcome = some (binding_settling o) }) h
  apply_edge id on_active on_clear o rule h (some edge) =
      if is_marked rule.last_outcome edge
      then turn false rule h
      else let (result, h') =
          dispatch_one now ids rule.target (leaf_of on_active on_clear edge) h in
        turn true
          (record rule {
            status = elim edge [ active ↦ firing | cleared ↦ armed ];
            last_action_at = some now;
            last_outcome = some (binding_applied edge);
          })
          (record_event id now (binding_edge edge o result) h')

  abbrev pub settle : String → Leaf → Leaf → Outcome → Rule → Hub → Turn
  settle id on_active on_clear o rule h = apply_edge id on_active on_clear o rule h (edge_of rule)

  -- `_binding_tick`
  unfoldable pub binding_tick : String → Leaf → Leaf → Rule → Outcome → Hub → Turn
  binding_tick id on_active on_clear rule success h =
      settle id on_active on_clear success
        (record rule {
          failure_streak = 0;
          recovery_streak = rule.recovery_streak + 1;
          last_probed_at = some now;
        })
        h
  binding_tick id on_active on_clear rule failure h =
      settle id on_active on_clear failure
        (record rule {
          failure_streak = rule.failure_streak + 1;
          recovery_streak = 0;
          last_probed_at = some now;
        })
        h
  binding_tick id on_active on_clear rule o h =
      turn false (record rule { last_probed_at = some now; last_outcome = some (probed o) }) h

  abbrev pub update_by : String → Rule → Outcome → Hub → Action → Turn
  update_by id rule o h (leaf action) = streak_tick id action rule o h
  update_by id rule o h (binding on_active on_clear) = binding_tick id on_active on_clear rule o h

  -- `_update_state_and_maybe_fire`
  unfoldable pub update_state_and_maybe_fire : String → Rule → Outcome → Hub → Turn
  unfolding streak_tick binding_tick
  update_state_and_maybe_fire id rule o h = update_by id rule o h rule.action
