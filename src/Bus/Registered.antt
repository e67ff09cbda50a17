-- ===== src/Bus/Registered.antt =====
-- The references that the bus holds, over any calls.
use rebooter_droids.Base.{
  ℕ, String, true, Option, none, some, List, [], ◌∷◌, ◌≡◌, ◌⊎◌, ◌∙◌, inl, inr, eq_iff, refl, arith,
  Option-cases, if_split,
}
use rebooter_droids.Base.Table.{Table, get, get-put, get-remove}
use rebooter_droids.Bus.{
  Subscriber, Bus, contains, difference, change, is_dead, offer, fan_out, publish, close,
  or_dropped, put_nowait, shut, taken, after_get, subscribe, unsubscribe, consume, collect, Call,
  step, run, new_subscriber,
}
use rebooter_droids.Bus.Fanout.{IsSetOf, contains-difference, publish-Fanout, offered}

difference-IsSetOf : (ks dead : List String) → IsSetOf ks → IsSetOf (difference ks dead)
unfolding difference
difference-IsSetOf [] dead u = tt
difference-IsSetOf (k ∷ ks) dead (fresh, u) =
    let rest = difference-IsSetOf ks dead u in
    if_split IsSetOf (contains k dead) (difference ks dead) (k ∷ difference ks dead) (λ out. rest)
      (λ kept. (ground (arith, contains-difference k ks dead, fresh), rest))

module _ {Event : Type 0} where
  -- No reference is registered twice, and every open subscriber in memory is registered.
  pub record IsRegistered (bus : Bus Event) : Type 0 where
    pub distinct : IsSetOf bus.refs
    pub known : (j : String) → (contains j bus.refs ≡ true) ⊎ (is_dead (get j bus.objects) ≡ true)

  put_nowait-closed :
      (item : Option Event) (s : Subscriber Event)
      → (or_dropped s (put_nowait item s)).closed ≡ s.closed
  unfolding put_nowait
  put_nowait-closed item s = ground arith

  close-closed : (s : Subscriber Event) → (close s).closed ≡ true
  unfolding close
  close-closed s = ground (arith, put_nowait-closed none (shut s))

  offer-closed : (e : Event) (s : Subscriber Event) → (offer e s).closed ≡ s.closed
  unfolding offer
  offer-closed e s = ground (arith, put_nowait-closed (some e) s)

  after_get-closed :
      (s : Subscriber Event) (q : List (Option Event)) → (after_get s q).closed ≡ s.closed
  after_get-closed s [] = refl
  after_get-closed s (x ∷ q) = refl

  taken-closed : (s : Subscriber Event) → (taken s).closed ≡ s.closed
  unfolding taken
  taken-closed s = after_get-closed s s.queue

  offered-dead : (e : Event) (o : Option (Subscriber Event)) → is_dead (offered e o) ≡ is_dead o
  offered-dead e none = refl
  offered-dead e (some s) = offer-closed e s

  -- A change that opens no subscriber leaves the dead ones dead.
  change-dead :
      (f : Subscriber Event → Subscriber Event) (id j : String) (t : Table (Subscriber Event))
      → ((s : Subscriber Event) → s.closed ≡ true → (f s).closed ≡ true)
      → is_dead (get j t) ≡ true
      → is_dead (get j (change f id (get id t) t)) ≡ true
  unfolding change
  change-dead f id j t keep d = elim (Option-cases (get id t)) [
    | inl gone ↦ rw gone d
    | inr (s, here) ↦ rw here (ground (arith, here, d, eq_iff id j, get-put id j (f s) t, keep s))
  ]

  change-IsRegistered :
      (f : Subscriber Event → Subscriber Event) (id : String) (bus : Bus Event)
      → ((s : Subscriber Event) → s.closed ≡ true → (f s).closed ≡ true)
      → IsRegistered bus
      → IsRegistered (record bus { objects = change f id (get id bus.objects) bus.objects })
  change-IsRegistered f id bus keep h = record {
    distinct = h.distinct;
    known = λ j. elim (h.known j) [
      | inl here ↦ inl here
      | inr d ↦ inr (change-dead f id j bus.objects keep d)
    ];
  }

  subscribe-IsRegistered :
      (id : String) (n : ℕ) (bus : Bus Event) → IsRegistered bus → IsRegistered (subscribe id n bus)
  unfolding subscribe contains
  subscribe-IsRegistered id n bus h = record {
    distinct =
        if_split IsSetOf (contains id bus.refs) bus.refs (id ∷ bus.refs) (λ old. h.distinct)
          (λ fresh. (fresh, h.distinct));
    known =
        λ j. ground (arith, h.known j, eq_iff id j, get-put id j (new_subscriber n) bus.objects);
  }

  collect-IsRegistered :
      (id : String) (bus : Bus Event) → IsRegistered bus → IsRegistered (collect id bus)
  unfolding collect
  collect-IsRegistered id bus h = record {
    distinct = h.distinct;
    known = λ j. ground (arith, h.known j, eq_iff id j, get-remove id j bus.objects);
  }

  publish-IsRegistered :
      (e : Event) (bus : Bus Event) → IsRegistered bus → IsRegistered (publish e bus)
  unfolding publish
  publish-IsRegistered e bus h = record {
    distinct = difference-IsSetOf bus.refs (fan_out e bus.refs bus.objects).1 h.distinct;
    known = λ j.
        let (object, ref) = publish-Fanout e bus j h.distinct in
        ground (arith, h.known j, object, ref, offered-dead e (get j bus.objects));
  }

  pub step-IsRegistered :
      (c : Call Event) (bus : Bus Event) → IsRegistered bus → IsRegistered (step c bus)
  unfolding unsubscribe consume
  step-IsRegistered (Call.subscribing id n) bus h = subscribe-IsRegistered id n bus h
  step-IsRegistered (Call.unsubscribing id) bus h =
      change-IsRegistered close id bus (λ s c. close-closed s) h
  step-IsRegistered (Call.consuming id) bus h =
      change-IsRegistered taken id bus (λ s c. taken-closed s ∙ c) h
  step-IsRegistered (Call.collecting id) bus h = collect-IsRegistered id bus h
  step-IsRegistered (Call.publishing e) bus h = publish-IsRegistered e bus h

  -- Whatever calls are made, no reference is registered twice, and a subscriber that is open and in
  -- memory is registered: pruning takes only those that are closed or gone.
  pub run-IsRegistered :
      (cs : List (Call Event)) (bus : Bus Event) → IsRegistered bus → IsRegistered (run cs bus)
  unfolding run
  run-IsRegistered [] bus h = h
  run-IsRegistered (c ∷ cs) bus h = run-IsRegistered cs (step c bus) (step-IsRegistered c bus h)
