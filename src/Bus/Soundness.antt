-- ===== src/Bus/Soundness.antt =====
-- The queues of the bus: their bound, and when a sentinel can be in them.
use rebooter_droids.Base.{
  ℕ, ◌≤◌, String, Bool, true, false, ◌||◌, nat_eq, ltb, if_split, Option, none, some, List, [], ◌∷◌,
  ◌++◌, ◌==◌, ◌≡◌, ◌⊎◌, inl, inr, refl, arith, Bool-cases, Option-cases, length, length-append,
  subst,
}
use rebooter_droids.Base.Table.{Table, get, put, remove, get-put, get-remove}
use rebooter_droids.Bus.{
  after_get, Subscriber, Bus, put_nowait, or_dropped, shut, close, new_subscriber, subscribe,
  change, unsubscribe, offer, fan_out, publish, taken, consume, collect, Call, step,
}

module _ {Event : Type 0} where
  -- Only events, no sentinel.
  abbrev pub no_sentinel : List (Option Event) → Bool
  no_sentinel [] = true
  no_sentinel (none ∷ q) = false
  no_sentinel (some e ∷ q) = no_sentinel q

  no_sentinel-append :
      (q : List (Option Event)) (e : Event) → no_sentinel (q ++ some e ∷ []) ≡ no_sentinel q
  no_sentinel-append [] e = refl
  no_sentinel-append (none ∷ q) e = refl
  no_sentinel-append (some x ∷ q) e = no_sentinel-append q e

  -- A subscriber's queue keeps its bound, and has no sentinel while the subscriber is open.
  pub record IsSound (s : Subscriber Event) : Type 0 where
    pub bounded : (s.max_size ≡ 0) ⊎ (length s.queue ≤ s.max_size)
    pub running : (s.closed ≡ true) ⊎ (no_sentinel s.queue ≡ true)

  new_subscriber-IsSound : (n : ℕ) → IsSound (new_subscriber n)
  new_subscriber-IsSound n = record { bounded = inr (omega arith); running = inr refl }

  shut-IsSound : (s : Subscriber Event) → IsSound s → IsSound (shut s)
  shut-IsSound s h = record { bounded = h.bounded; running = inl refl }

  -- Appending to a queue that has room.
  put_nowait-IsSound :
      (item : Option Event) (s : Subscriber Event)
      → ((s.max_size ≡ 0) ⊎ (length s.queue ≤ s.max_size))
      → ((s.closed ≡ true) ⊎ (no_sentinel (s.queue ++ item ∷ []) ≡ true))
      → IsSound s
      → IsSound (or_dropped s (put_nowait item s))
  unfolding put_nowait
  put_nowait-IsSound item s b r h =
      elim (Bool-cases (nat_eq s.max_size 0 || ltb (length s.queue) s.max_size)) [
        | inl room ↦ rw room (record {
          bounded = ground (arith, room, length-append s.queue (item ∷ []));
          running = r;
        })
        | inr full ↦ rw full h
      ]

  pub close-IsSound : (s : Subscriber Event) → IsSound s → IsSound (close s)
  unfolding close
  close-IsSound s h =
      if_split IsSound s.closed s (or_dropped (shut s) (put_nowait none (shut s)))
        (λ shut_before. h)
        (λ still. put_nowait-IsSound none (shut s) h.bounded (inl refl) (shut-IsSound s h))

  pub offer-IsSound : (e : Event) (s : Subscriber Event) → IsSound s → IsSound (offer e s)
  unfolding offer
  offer-IsSound e s h =
      if_split IsSound s.closed s (or_dropped s (put_nowait (some e) s)) (λ shut_before. h)
        (λ still.
          let bare : no_sentinel (s.queue ++ some e ∷ []) ≡ true =
            ground (arith, still, h.running, no_sentinel-append s.queue e) in
          put_nowait-IsSound (some e) s h.bounded (inr bare) h)

  no_sentinel_rest :
      (x : Option Event) (q : List (Option Event))
      → no_sentinel (x ∷ q) ≡ true
      → no_sentinel q ≡ true
  no_sentinel_rest none q h = ground arith
  no_sentinel_rest (some e) q h = h

  after_get-IsSound :
      (n : ℕ) (c : Bool) (q : List (Option Event))
      → let s : Subscriber Event = record { max_size = n; queue = q; closed = c } in
        IsSound s → IsSound (after_get s q)
  after_get-IsSound n c [] h = h
  after_get-IsSound n c (x ∷ q) h = record {
    bounded = elim h.bounded [ inl z ↦ inl z | inr le ↦ inr (omega (arith, le)) ];
    running = elim h.running [ inl z ↦ inl z | inr none_yet ↦ inr (no_sentinel_rest x q none_yet) ];
  }

  pub taken-IsSound : (s : Subscriber Event) → IsSound s → IsSound (taken s)
  unfolding taken
  taken-IsSound s h = after_get-IsSound s.max_size s.closed s.queue h

  -- Every subscriber is sound.
  abbrev pub AllSound : Table (Subscriber Event) → Type 0
  AllSound t = (j : String) (s : Subscriber Event) → get j t ≡ some s → IsSound s

  put-AllSound :
      (id : String) (s : Subscriber Event) (t : Table (Subscriber Event))
      → IsSound s
      → AllSound t
      → AllSound (put id s t)
  put-AllSound id s t h a j r e = elim (Bool-cases (id == j)) [
    | inl same ↦ subst IsSound (ground (arith, same, e, get-put id j s t)) h
    | inr other ↦ a j r (ground (arith, other, e, get-put id j s t))
  ]

  pub change-AllSound :
      (f : Subscriber Event → Subscriber Event) (id : String) (t : Table (Subscriber Event))
      → ((s : Subscriber Event) → IsSound s → IsSound (f s))
      → AllSound t
      → AllSound (change f id (get id t) t)
  unfolding change
  change-AllSound f id t keep a = elim (Option-cases (get id t)) [
    | inl gone ↦ rw gone a
    | inr (s, here) ↦ rw here (put-AllSound id (f s) t (keep s (a id s here)) a)
  ]

  fan_out-AllSound :
      (e : Event) (refs : List String) (t : Table (Subscriber Event))
      → AllSound t
      → AllSound (fan_out e refs t).0
  unfolding fan_out
  fan_out-AllSound e [] t a = a
  fan_out-AllSound e (r ∷ refs) t a =
      fan_out-AllSound e refs (change (offer e) r (get r t) t)
        (change-AllSound (offer e) r t (offer-IsSound e) a)

  remove-AllSound :
      (id : String) (t : Table (Subscriber Event)) → AllSound t → AllSound (remove id t)
  remove-AllSound id t a j s e = a j s (ground (arith, e, get-remove id j t))

  pub step-AllSound :
      (c : Call Event) (bus : Bus Event) → AllSound bus.objects → AllSound (step c bus).objects
  unfolding subscribe unsubscribe publish consume collect
  step-AllSound (Call.subscribing id n) bus a =
      put-AllSound id (new_subscriber n) bus.objects (new_subscriber-IsSound n) a
  step-AllSound (Call.unsubscribing id) bus a = change-AllSound close id bus.objects close-IsSound a
  step-AllSound (Call.consuming id) bus a = change-AllSound taken id bus.objects taken-IsSound a
  step-AllSound (Call.collecting id) bus a = remove-AllSound id bus.objects a
  step-AllSound (Call.publishing event) bus a = fan_out-AllSound event bus.refs bus.objects a
