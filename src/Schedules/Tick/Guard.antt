-- ===== src/Schedules/Tick/Guard.antt =====
-- The lockout of protected devices under schedules.
use rebooter_droids.Base.{
  ℕ, ◌+◌, ltb, String, Bool, true, false, Option, none, some, ◌≡◌, refl, List, [], ◌∷◌, Bool-cases,
  inl, inr, subst, sym, if_cases,
}
use rebooter_droids.Base.Result.{Result, ok, err}
use rebooter_droids.Base.Table.{Table}
use rebooter_droids.Commands.Types.{Store, Error, relay_cycle}
use rebooter_droids.Commands.Queue.{Request}
use rebooter_droids.Watchdog.Types.{Hub}
use rebooter_droids.Watchdog.Actions.{enqueue, request, cycle_payload, resolve_target_devices}
use rebooter_droids.Watchdog.Actions.Guard.{Guarded, Guarded-refl, Guarded-trans, send-Guarded}
use rebooter_droids.Schedules.Types.{Schedule, Kind, power_cycle, maintenance}
use rebooter_droids.Schedules.Flags.{Flag}
use rebooter_droids.Schedules.Next.{compute_next_run_at, ClockError}
use rebooter_droids.Schedules.Tick.{
  Count, Loop, done, raised, Step, stepped, failed_step, Stats, no_stats, count_one, cycle_each,
  cycle_devices, fire_power_cycle, fire_kind, fire_schedule, set_next, after_fire, step_at, step,
  cons_row, tick_rows, then_rest, settle, tick,
}

module _ (now : ℕ) (ids : ℕ → String) where
  store-count_one :
      (c : Count) (p : Result Error String × Hub) → (count_one c p).hub.store ≡ p.1.store
  store-count_one c (ok id, h) = refl
  store-count_one c (err e, h) = refl

  cycle_each-Guarded :
      (r : Request) (dids : List String) (c : Count)
      → r.override_lockout ≡ false
      → Guarded c.hub.store (cycle_each now ids r dids c).hub.store
  unfolding cycle_each
  cycle_each-Guarded r [] c n = Guarded-refl c.hub.store
  cycle_each-Guarded r (did ∷ rest) c n =
      let p = enqueue now ids r did c.hub in
      Guarded-trans
        (subst (Guarded c.hub.store) (sym (store-count_one c p))
          (send-Guarded now ids r did c.hub n))
        (cycle_each-Guarded r rest (count_one c p) n)

  cycle_devices-Guarded :
      (r : Request) (dids : List String) (h : Hub)
      → r.override_lockout ≡ false
      → Guarded h.store (cycle_devices now ids r dids h).1.store
  cycle_devices-Guarded r [] h n = Guarded-refl h.store
  cycle_devices-Guarded r (did ∷ rest) h n =
      cycle_each-Guarded r (did ∷ rest) (record { hub = h; enqueued = 0; failed = 0 }) n

  fire_kind-Guarded :
      (k : Kind) (s : Schedule) (h : Hub) → Guarded h.store (fire_kind now ids k s h).1.store
  unfolding fire_power_cycle
  fire_kind-Guarded power_cycle s h =
      cycle_devices-Guarded
        (request relay_cycle
          (some (cycle_payload s.power_off_seconds s.post_reboot_holdoff_seconds)) false)
        (resolve_target_devices h.store.memberships s.target) h refl
  fire_kind-Guarded maintenance s h = Guarded-refl h.store
  fire_kind-Guarded (Kind.other text) s h = Guarded-refl h.store

  -- The hub that a step or a loop leaves.
  abbrev step_hub : Step → Hub
  step_hub (stepped s h st) = h
  step_hub (failed_step e h) = h

  abbrev loop_hub : Loop → Hub
  loop_hub (done rows h st) = h
  loop_hub (raised e h) = h

  hub-set_next :
      (s : Schedule) (h : Hub) (st : Stats) (t : Result ClockError (Option ℕ))
      → step_hub (set_next s h st t) ≡ h
  hub-set_next s h st (ok t) = refl
  hub-set_next s h st (err e) = refl

  after_fire-Guarded :
      (s : Schedule) (h : Hub) (st : Stats)
      → Guarded h.store (step_hub (after_fire now ids s st (fire_schedule now ids s h))).store
  unfolding fire_schedule
  after_fire-Guarded s h st =
      let (outcome, h') = fire_kind now ids s.kind s h in
      let ran = record s { last_outcome = some outcome; last_run_at = some now } in
      rw (hub-set_next ran h' (record st { fired = st.fired + 1 }) (compute_next_run_at now ran))
        (fire_kind-Guarded s.kind s h)

  step_at-Guarded :
      (s : Schedule) (h : Hub) (st : Stats) (o : Option ℕ)
      → Guarded h.store (step_hub (step_at now ids s h st o)).store
  step_at-Guarded s h st none =
      rw (hub-set_next s h st (compute_next_run_at now s)) (Guarded-refl h.store)
  step_at-Guarded s h st (some t) = elim (Bool-cases (ltb now t)) [
    | inl early ↦ rw early (Guarded-refl h.store)
    | inr due ↦ rw due (after_fire-Guarded s h st)
  ]

  step-Guarded :
      (s : Schedule) (h : Hub) (st : Stats) → Guarded h.store (step_hub (step now ids s h st)).store
  unfolding step
  step-Guarded s h st =
      step_at-Guarded s h (record st { considered = st.considered + 1 }) s.next_run_at

  hub-cons_row : (id : String) (s : Schedule) (l : Loop) → loop_hub (cons_row id s l) ≡ loop_hub l
  hub-cons_row id s (done rows h st) = refl
  hub-cons_row id s (raised e h) = refl

  then_rest-Guarded :
      (s : Store) (id : String) (rest : Hub → Stats → Loop) (p : Step)
      → Guarded s (step_hub p).store
      → ((h : Hub) (st : Stats) → Guarded h.store (loop_hub (rest h st)).store)
      → Guarded s (loop_hub (then_rest id rest p)).store
  then_rest-Guarded s id rest (stepped row h st) g k =
      rw (hub-cons_row id row (rest h st)) (Guarded-trans g (k h st))
  then_rest-Guarded s id rest (failed_step e h) g k = g

  tick_rows-Guarded :
      (rows : Table Schedule) (h : Hub) (st : Stats)
      → Guarded h.store (loop_hub (tick_rows now ids rows h st)).store
  unfolding tick_rows
  tick_rows-Guarded [] h st = Guarded-refl h.store
  tick_rows-Guarded ((id, s) ∷ rest) h st =
      if_cases (λ (l : Loop). Guarded h.store (loop_hub l).store) s.enabled
        (then_rest id (tick_rows now ids rest) (step now ids s h st))
        (cons_row id s (tick_rows now ids rest h st))
        (then_rest-Guarded h.store id (tick_rows now ids rest) (step now ids s h st)
          (step-Guarded s h st) (tick_rows-Guarded rest))
        (rw (hub-cons_row id s (tick_rows now ids rest h st)) (tick_rows-Guarded rest h st))

  hub-settle :
      (rows : Table Schedule) (flag : Option Flag) (l : Loop)
      → (settle now ids rows flag l).hub ≡ loop_hub l
  hub-settle rows flag (done rows' h st) = refl
  hub-settle rows flag (raised e h) = refl

  -- A whole tick of the schedules, whatever they are and also where it raises, queues no power
  -- command for a protected device, and protects or unprotects none.
  pub schedule_tick-Guarded :
      (is_off : Bool) (rows : Table Schedule) (h : Hub) (flag : Option Flag)
      → Guarded h.store (tick now ids is_off rows h flag).hub.store
  unfolding tick
  schedule_tick-Guarded true rows h flag = Guarded-refl h.store
  schedule_tick-Guarded false rows h flag =
      rw (hub-settle rows flag (tick_rows now ids rows h no_stats))
        (tick_rows-Guarded rows h no_stats)
