-- ===== src/Watchdog/Tick.antt =====
-- The tick: app/services/watchdog_runtime/__init__.py. The probes reach the network, so what
-- `run_probe` returns or raises for a rule is a parameter, as are the clock and the fresh ids.
pub mod Guard
use rebooter_droids.Base.{
  ℕ, suc, ◌+◌, String, Bool, true, false, not, ◌&&◌, ◌||◌, Option, none, some, List, [], ◌∷◌,
  if◌then◌else◌,
}
use rebooter_droids.Base.Table.{Table}
use rebooter_droids.Watchdog.Types.{
  is_disabled, Outcome, probe_error, maintenance_skipped, Rule, outcome, maintenance_skip, Hub,
}
use rebooter_droids.Watchdog.State.{
  rule_is_due, in_maintenance_window, record_event, Turn, update_state_and_maybe_fire,
}

-- What a probe gives: `none` where it raises.
abbrev pub Probe : Type 0
Probe = String → Rule → Option Outcome

pub record Stats : Type 0 where
  pub considered : ℕ
  pub probed : ℕ
  pub fired : ℕ
  pub errors : ℕ
  pub in_window : ℕ

abbrev pub no_stats : Stats
no_stats = record { considered = 0; probed = 0; fired = 0; errors = 0; in_window = 0 }

-- What the tick carries from rule to rule.
pub record Round : Type 0 where
  pub rule : Rule
  pub hub : Hub
  pub stats : Stats

-- The `WHERE` of the tick's query.
abbrev pub is_loaded : Rule → Bool
is_loaded rule = rule.enabled && not (is_disabled rule.status)

abbrev pub probe_stats : Option Outcome → Stats → Stats
probe_stats none st = record st { errors = st.errors + 1 }
probe_stats (some o) st = record st { probed = st.probed + 1 }

abbrev pub probe_outcome : Option Outcome → Outcome
probe_outcome none = probe_error
probe_outcome (some o) = o

abbrev pub count_fired : Bool → Stats → Stats
count_fired b st = if b then record st { fired = st.fired + 1 } else st

-- The rules, the hub and the statistics after a tick.
pub record Pass : Type 0 where
  pub rules : Table Rule
  pub hub : Hub
  pub stats : Stats

module _ (now : ℕ) (ids : ℕ → String) (run_probe : Probe) where
  abbrev pub finish : Stats → Turn → Round
  finish st t = record { rule = t.rule; hub = t.hub; stats = count_fired t.fired st }

  -- The loop body, for a rule that is due and outside its maintenance windows.
  abbrev pub probe_rule : String → Rule → Hub → Stats → Option Outcome → Round
  probe_rule id rule h st p = finish (probe_stats p st) (
      update_state_and_maybe_fire now ids id rule (probe_outcome p)
        (record_event id now (outcome (probe_outcome p)) h))

  abbrev pub counted : Stats → Stats
  counted st = record st { considered = st.considered + 1 }

  -- One round of the loop.
  unfoldable pub tick_rule : String → Rule → Hub → Stats → Round
  unfolding update_state_and_maybe_fire rule_is_due
  tick_rule id rule h st =
      if not (rule_is_due rule now)
      then record { rule = rule; hub = h; stats = counted st }
      else if in_maintenance_window rule now
      then record {
        rule = record rule { last_probed_at = some now; last_outcome = some maintenance_skipped };
        hub = record_event id now maintenance_skip h;
        stats = record st { considered = st.considered + 1; in_window = st.in_window + 1 };
      }
      else probe_rule id rule h (counted st) (run_probe id rule)

  abbrev cons_rule : String → Rule → Pass → Pass
  cons_rule id rule p = record p { rules = (id, rule) ∷ p.rules }

  unfoldable pub tick_rules : Table Rule → Hub → Stats → Pass
  unfolding tick_rule
  tick_rules [] h st = record { rules = []; hub = h; stats = st }
  tick_rules ((id, rule) ∷ rest) h st =
      let skip = cons_rule id rule (tick_rules rest h st) in
      let r = tick_rule id rule h st in
      let run = cons_rule id r.rule (tick_rules rest r.hub r.stats) in
      if is_loaded rule then run else skip

  -- `tick`: switched off by the environment or by portal-wide maintenance, it touches nothing.
  unfoldable pub tick : Bool → Bool → Table Rule → Hub → Pass
  unfolding tick_rules
  tick is_off maintenance rules h =
      if is_off || maintenance
      then record { rules = rules; hub = h; stats = no_stats }
      else tick_rules rules h no_stats
