-- ===== src/Webhooks/Emit/Queued.antt =====
-- What an event queues.
use mathlib.Core.Path.{fun_ext}
use rebooter_droids.Base.{
  ℕ, suc, ◌+◌, String, Bool, true, false, not, ◌&&◌, ◌||◌, Option, none, some, List, [], ◌∷◌, ◌++◌,
  ◌==◌, ◌≡◌, ◌⊎◌, inl, inr, if◌then◌else◌, select, length, refl, ap, arith, Bool-cases, subst,
  if_cases,
}
use rebooter_droids.Base.Table.{Table, get}
use rebooter_droids.Webhooks.Types.{Delivery, Rows, pending}
use rebooter_droids.Webhooks.Send.Life.{IsSound}
use rebooter_droids.Webhooks.Tick.Loop.{AllSound}
use rebooter_droids.Webhooks.Emit.{
  Channel, Subscription, is_event_type, is_subscribed, is_elsewhere, new_delivery, is_off,
  queue_for_channel, queue_all, emit,
}

append_assoc : (a b c : Table Delivery) → (a ++ b) ++ c ≡ a ++ (b ++ c)
append_assoc [] b c = refl
append_assoc (x ∷ a) b c = ap (λ t. x ∷ t) (append_assoc a b c)

append_nil : (a : Table Delivery) → a ++ [] ≡ a
append_nil [] = refl
append_nil (x ∷ a) = ap (λ t. x ∷ t) (append_nil a)

-- A site filter keeps out what has another site; what has no site passes every filter.
abbrev pub lets_through : Option String → Option String → Bool
lets_through none site = true
lets_through (some filter) none = true
lets_through (some filter) (some site) = filter == "" || site == "" || filter == site

abbrev pub is_on : {Config : Type 0} → Option (Channel Config) → Bool
is_on none = false
is_on (some channel) = channel.enabled

is_elsewhere-lets_through :
    (filter site : Option String) → is_elsewhere filter site ≡ not (lets_through filter site)
unfolding is_elsewhere
is_elsewhere-lets_through none site = refl
is_elsewhere-lets_through (some f) none = refl
is_elsewhere-lets_through (some f) (some s) = ground arith

is_off-is_on : {Config : Type 0} (c : Option (Channel Config)) → is_off c ≡ not (is_on c)
is_off-is_on none = refl
is_off-is_on (some channel) = refl

-- The subscription is of the event's type and enabled, its site filter lets the event through, and
-- its channel exists and is enabled.
abbrev pub reaches :
    {Config : Type 0} → String → Option String → Table (Channel Config) → Subscription → Bool
reaches event_type site channels sub =
    sub.event_type == event_type
    && sub.enabled
    && lets_through sub.site_id site
    && is_on (get sub.channel_id channels)

-- The tests of the code on a subscription.
abbrev is_queued :
    {Config : Type 0} → String → Option String → Table (Channel Config) → Subscription → Bool
is_queued event_type site channels sub =
    is_subscribed event_type sub
    && not (is_elsewhere sub.site_id site || is_off (get sub.channel_id channels))

is_queued-reaches :
    {Config : Type 0} (event : String) (site : Option String) (channels : Table (Channel Config))
    (sub : Subscription)
    → is_queued event site channels sub ≡ reaches event site channels sub
unfolding is_subscribed
is_queued-reaches event site channels sub =
    ground (
      arith,
      is_elsewhere-lets_through sub.site_id site,
      is_off-is_on (get sub.channel_id channels),
    )

select-reaches :
    {Config : Type 0} (event : String) (site : Option String) (channels : Table (Channel Config))
    (subs : List Subscription)
    → select (is_queued event site channels) subs ≡ select (reaches event site channels) subs
select-reaches event site channels subs =
    ap (λ (p : Subscription → Bool). select p subs)
      (fun_ext (λ sub. is_queued-reaches event site channels sub))

module _ (mint : ℕ → String) (now : ℕ) where
  -- New rows for the subscriptions, with the ids minted from a place on.
  abbrev pub rows_for : ℕ → List Subscription → Table Delivery
  rows_for n [] = []
  rows_for n (sub ∷ subs) =
      (
        mint n,
        record {
          channel_id = sub.channel_id;
          status = pending;
          attempts = 0;
          http_status = none;
          next_attempt_at = some now;
          updated_at = now;
        },
      )
      ∷ rows_for (suc n) subs

  new_delivery-IsSound : (channel_id : String) → IsSound (new_delivery now channel_id)
  new_delivery-IsSound channel_id = record {
    at_most = omega arith;
    left_over = inr (omega arith);
    scheduled = inr refl;
  }

  rows_for-AllSound : (n : ℕ) (subs : List Subscription) → AllSound (rows_for n subs)
  unfolding get
  rows_for-AllSound n [] j d e = cc
  rows_for-AllSound n (sub ∷ subs) j d e = elim (Bool-cases (mint n == j)) [
    | inl same ↦ subst IsSound (ground (arith, same, e)) (new_delivery-IsSound sub.channel_id)
    | inr other ↦ rows_for-AllSound (suc n) subs j d (ground (arith, other, e))
  ]

get-append :
    (j : String) (d : Delivery) (t u : Table Delivery)
    → get j (t ++ u) ≡ some d
    → (get j t ≡ some d) ⊎ (get j u ≡ some d)
unfolding get
get-append j d [] u e = inr e
get-append j d ((k, v) ∷ t) u e = ground (arith, e, get-append j d t u)

module _ {Config : Type 0} (mint : ℕ → String) (now : ℕ) where
  queue_all-rows_for :
      (event : String) (site : Option String) (channels : Table (Channel Config))
      (subs : List Subscription) (n : ℕ) (t : Table Delivery)
      → let sel = select (is_queued event site channels) subs in
        queue_all mint now site channels (select (is_subscribed event) subs) (n, t)
        ≡ (n + length sel, t ++ rows_for mint now n sel)
  unfolding queue_all queue_for_channel
  queue_all-rows_for event site channels [] n t = ground (arith, append_nil t)
  queue_all-rows_for event site channels (sub ∷ subs) n t =
      let t1 = queue_for_channel mint now n sub.channel_id t in
      ground (
        arith,
        queue_all-rows_for event site channels subs n t,
        queue_all-rows_for event site channels subs (suc n) t1,
        append_assoc t ((mint n, new_delivery now sub.channel_id) ∷ [])
            (rows_for mint now (suc n) (select (is_queued event site channels) subs)),
      )

  -- An event of a known type queues one delivery, pending and due at once, for each subscription
  -- that is of this type and enabled, has an enabled channel, and whose site filter, if it has one,
  -- is the event's site or meets an event without a site; the rows come after those there are, in
  -- the order of the subscriptions. Their number is returned and the channels stay as they are. An
  -- event of another type queues none.
  pub emit-queued :
      (event : String) (site : Option String) (subs : List Subscription)
      (rows : Rows (Channel Config))
      → let sel = select (reaches event site rows.channels) subs in
        emit mint now event site subs rows ≡ (
          if is_event_type event
          then (length sel, record rows { deliveries = rows.deliveries ++ rows_for mint now 0 sel })
          else (0, rows))
  unfolding emit
  emit-queued event site subs rows =
      rw (queue_all-rows_for event site rows.channels subs 0 rows.deliveries)
        (rw (select-reaches event site rows.channels subs) (ground arith))

  -- An event keeps every delivery sound, the rows that it queues included.
  pub emit-AllSound :
      (event : String) (site : Option String) (subs : List Subscription)
      (rows : Rows (Channel Config))
      → AllSound rows.deliveries
      → AllSound (emit mint now event site subs rows).1.deliveries
  emit-AllSound event site subs rows a =
      let sel = select (reaches event site rows.channels) subs in
      let new = rows_for mint now 0 sel in
      rw (emit-queued event site subs rows) (
        if_cases {A = ℕ × Rows (Channel Config)} (λ out. AllSound out.1.deliveries)
          (is_event_type event) (length sel, record rows { deliveries = rows.deliveries ++ new })
          (0, rows)
          (λ j d e. elim (get-append j d rows.deliveries new e) [
            | inl old ↦ a j d old
            | inr fresh ↦ rows_for-AllSound mint now 0 sel j d fresh
          ])
          a)
