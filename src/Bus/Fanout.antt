-- ===== src/Bus/Fanout.antt =====
-- What a published event reaches.
use rebooter_droids.Base.{
  String, false, not, ◌&&◌, Option, none, some, List, [], ◌∷◌, ◌==◌, ◌≡◌, inl, inr, eq_iff, refl,
  arith, Bool-cases, Option-cases, if◌then◌else◌,
}
use rebooter_droids.Base.Table.{Table, get, get-put}
use rebooter_droids.Bus.{
  Subscriber, Bus, contains, difference, change, is_dead, offer, fan_out, publish,
}

-- A list of references without repeats.
abbrev pub IsSetOf : List String → Type 0
IsSetOf [] = Unit
IsSetOf (k ∷ ks) = (contains k ks ≡ false) × IsSetOf ks

pub contains-difference :
    (k : String) (ks dead : List String)
    → contains k (difference ks dead) ≡ (contains k ks && not (contains k dead))
unfolding contains difference
contains-difference k [] dead = refl
contains-difference k (j ∷ js) dead = ground (arith, contains-difference k js dead, eq_iff j k)

module _ {Event : Type 0} where
  -- A subscriber once an event was offered to it.
  abbrev pub offered : Event → Option (Subscriber Event) → Option (Subscriber Event)
  offered e none = none
  offered e (some s) = some (offer e s)

  get-change :
      (f : Event) (id j : String) (t : Table (Subscriber Event))
      → get j (change (offer f) id (get id t) t)
        ≡ (if id == j then offered f (get j t) else get j t)
  unfolding change
  get-change f id j t = elim (Option-cases (get id t)) [
    | inl gone ↦ ground (arith, gone, eq_iff id j)
    | inr (s, here) ↦ rw here (ground (arith, here, eq_iff id j, get-put id j (offer f s) t))
  ]

  get-fan_out :
      (e : Event) (refs : List String) (j : String) (t : Table (Subscriber Event))
      → IsSetOf refs
      → get j (fan_out e refs t).0 ≡ (if contains j refs then offered e (get j t) else get j t)
  unfolding fan_out contains
  get-fan_out e [] j t u = refl
  get-fan_out e (r ∷ refs) j t (fresh, u) =
      let after = change (offer e) r (get r t) t in
      ground (arith, get-fan_out e refs j after u, get-change e r j t, eq_iff r j, fresh)

  -- The references found dead are those whose subscriber is gone or closed before the call.
  contains-fan_out :
      (e : Event) (refs : List String) (j : String) (t : Table (Subscriber Event))
      → IsSetOf refs
      → contains j (fan_out e refs t).1 ≡ (contains j refs && is_dead (get j t))
  unfolding fan_out contains
  contains-fan_out e [] j t u = refl
  contains-fan_out e (r ∷ refs) j t (fresh, u) =
      let after = change (offer e) r (get r t) t in
      elim (Bool-cases (is_dead (get r t))) [
        | inl d ↦ rw d (
            ground
              (arith, contains-fan_out e refs j after u, get-change e r j t, eq_iff r j, fresh, d))
        | inr d ↦ rw d (
            ground
              (arith, contains-fan_out e refs j after u, get-change e r j t, eq_iff r j, fresh, d))
      ]

  pub publish-Fanout :
      (e : Event) (bus : Bus Event) (j : String)
      → IsSetOf bus.refs
      → (get j (publish e bus).objects
          ≡ (if contains j bus.refs then offered e (get j bus.objects) else get j bus.objects))
        × (contains j (publish e bus).refs
            ≡ (contains j bus.refs && not (is_dead (get j bus.objects))))
  unfolding publish
  publish-Fanout e bus j u = (
    get-fan_out e bus.refs j bus.objects u,
    ground (
      arith,
      contains-difference j bus.refs (fan_out e bus.refs bus.objects).1,
      contains-fan_out e bus.refs j bus.objects u,
    ),
  )
