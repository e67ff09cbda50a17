-- ===== src/Examples/Watchdog.antt =====
-- Watchdog rules over the two devices of the command queue's examples.
use rebooter_droids.Base.{
  ℕ, String, true, false, none, some, ◌≡◌, inl, refl, arith, [], ◌∷◌, nat_eq, if◌then◌else◌,
  seconds,
}
use rebooter_droids.Commands.Types.{Store}
use rebooter_droids.Watchdog.Types.{
  armed, failure, probe_error, active, binding_applied, device, group, Leaf, cycle, relay_on,
  relay_off, leaf, binding, span, malformed, Rule, Hub,
}
use rebooter_droids.Watchdog.Actions.Guard.{Guarded}
use rebooter_droids.Watchdog.State.{streak_tick}
use rebooter_droids.Watchdog.State.History.{
  History, watch, Spaced, watch-Spaced, successes, watch-recovers,
}
use rebooter_droids.Watchdog.Tick.{Probe, tick}
use rebooter_droids.Watchdog.Tick.Guard.{tick-Guarded}

abbrev store : Store
store = record {
  devices =
      ("a", record { is_protected = false; is_held_off = false; local_ip = none })
      ∷ ("b", record { is_protected = true; is_held_off = false; local_ip = none })
      ∷ [];
  memberships =
      record { group_id = "g"; device_id = "a" } ∷ record { group_id = "g"; device_id = "b" } ∷ [];
  commands = [];
  results = [];
  published = [];
}

abbrev hub : Hub
hub = record { store = store; scenes = []; drawn = 0; events = []; notices = [] }

abbrev power_cycle : Leaf
power_cycle = cycle none none

-- Two failures in a row power-cycle the group, at most every 300 seconds.
abbrev rule : Rule
rule = record {
  enabled = true;
  status = armed;
  failure_threshold = 2;
  recovery_threshold = 2;
  window_seconds = 60;
  cooldown_seconds = 300;
  target = group "g";
  action = leaf power_cycle;
  escalation = none;
  maintenance_windows = malformed ∷ span 1000 2000 ∷ [];
  failure_streak = 0;
  recovery_streak = 0;
  last_probed_at = none;
  last_action_at = none;
  last_outcome = none;
}

abbrev failed_once_rule : Rule
failed_once_rule = record rule { failure_streak = 1 }

ids : ℕ → String
ids n = if nat_eq n 0 then "c0" else "c1"

-- Four failures a minute apart and one after the cooldown: two fires.
abbrev outage : History
outage =
    (seconds 0, failure)
    ∷ (seconds 60, failure)
    ∷ (seconds 120, failure)
    ∷ (seconds 180, probe_error)
    ∷ (seconds 400, failure)
    ∷ []

outage_fires : (watch ids "r" power_cycle rule hub outage).fires ≡ seconds 60 ∷ seconds 400 ∷ []
unfolding watch streak_tick
outage_fires = refl

watch-Spaced_example :
    Spaced rule.cooldown_seconds none (watch ids "r" power_cycle rule hub outage).fires
watch-Spaced_example = watch-Spaced ids "r" power_cycle rule hub outage

watch-recovers_example :
    let after = (watch ids "r" power_cycle failed_once_rule hub (successes (1 ∷ 2 ∷ []))).rule in
    (after.status ≡ armed) × (after.failure_streak ≡ 0)
watch-recovers_example =
    watch-recovers ids "r" power_cycle failed_once_rule hub (1 ∷ 2 ∷ []) (inl (omega arith))
      (omega arith) (omega arith)

-- A binding rule that keeps device `a` on while its probe succeeds.
abbrev bound : Rule
bound = record rule {
  target = device "a";
  action = binding relay_on relay_off;
  recovery_streak = 2;
  last_outcome = some (binding_applied active);
}

abbrev unsettled : Rule
unsettled = record bound { recovery_streak = 1; last_outcome = none }

abbrev always_fails : Probe
always_fails id r = some failure

abbrev raises : Probe
raises id r = none

tick-Guarded_example :
    Guarded store (tick 9 ids always_fails false false (("r", failed_once_rule) ∷ []) hub).hub.store
tick-Guarded_example =
    tick-Guarded 9 ids always_fails false false (("r", failed_once_rule) ∷ []) hub
