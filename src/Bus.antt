-- ===== src/Bus.antt =====
-- The in-process event bus of app/services/event_bus.py, and the consumer's side of a queue, from
-- app/blueprints/admin/devices_api.py. An event is any value.
pub mod Soundness
pub mod Fanout
pub mod Registered
use rebooter_droids.Base.{
  ℕ, String, Bool, true, false, not, ◌&&◌, ◌||◌, Option, none, some, List, [], ◌∷◌, ◌++◌, ◌==◌, ltb,
  nat_eq, length, if◌then◌else◌,
}
use rebooter_droids.Base.Table.{Table, get, put, remove}

-- `Subscriber`. The sentinel of its queue is `none`; a queue whose maxsize is 0 has no bound.
pub record Subscriber (Event : Type 0) : Type 0 where
  pub max_size : ℕ
  pub queue : List (Option Event)
  pub closed : Bool

-- The subscribers that are still in memory, by their identity, and the weak references of
-- `_subscribers`. A reference whose object is gone finds nothing.
pub record Bus (Event : Type 0) : Type 0 where
  pub objects : Table (Subscriber Event)
  pub refs : List String

-- `_DEFAULT_QUEUE_SIZE`
abbrev pub default_queue_size : ℕ
default_queue_size = 100

unfoldable pub contains : String → List String → Bool
contains k [] = false
contains k (j ∷ js) = j == k || contains k js

-- `set.add`
abbrev pub add_ref : String → List String → List String
add_ref k refs = if contains k refs then refs else k ∷ refs

-- `set.difference_update`
unfoldable pub difference : List String → List String → List String
difference [] dead = []
difference (k ∷ ks) dead =
    let rest = difference ks dead in if contains k dead then rest else k ∷ rest

module _ {Event : Type 0} where
  -- `Queue.put_nowait`, which raises Full on a queue without room.
  unfoldable pub put_nowait : Option Event → Subscriber Event → Option (Subscriber Event)
  put_nowait item s =
      if nat_eq s.max_size 0 || ltb (length s.queue) s.max_size
      then some (record s { queue = s.queue ++ item ∷ [] })
      else none

  -- `except queue.Full`: the item is dropped.
  abbrev pub or_dropped : Subscriber Event → Option (Subscriber Event) → Subscriber Event
  or_dropped s none = s
  or_dropped s (some after) = after

  abbrev pub shut : Subscriber Event → Subscriber Event
  shut s = record s { closed = true }

  -- `Subscriber.close`
  unfoldable pub close : Subscriber Event → Subscriber Event
  close s = if s.closed then s else or_dropped (shut s) (put_nowait none (shut s))

  abbrev pub new_subscriber : ℕ → Subscriber Event
  new_subscriber max_size = record { max_size = max_size; queue = []; closed = false }

  -- `subscribe`, at the identity that the new object gets.
  unfoldable pub subscribe : String → ℕ → Bus Event → Bus Event
  subscribe id max_size bus = record {
    objects = put id (new_subscriber max_size) bus.objects;
    refs = add_ref id bus.refs;
  }

  -- A change of one object, where it is in memory.
  unfoldable pub change :
      (Subscriber Event → Subscriber Event)
      → String
      → Option (Subscriber Event)
      → Table (Subscriber Event)
      → Table (Subscriber Event)
  change f id none objects = objects
  change f id (some s) objects = put id (f s) objects

  unfoldable pub unsubscribe : String → Bus Event → Bus Event
  unsubscribe id bus = record bus { objects = change close id (get id bus.objects) bus.objects }

  -- `sub is None or sub._closed`
  abbrev pub is_dead : Option (Subscriber Event) → Bool
  is_dead none = true
  is_dead (some s) = s.closed

  -- What an event does to a subscriber: nothing where it is closed or has no room.
  unfoldable pub offer : Event → Subscriber Event → Subscriber Event
  offer event s = if s.closed then s else or_dropped s (put_nowait (some event) s)

  -- The loop of `publish`: the objects, and the references found dead.
  unfoldable pub fan_out :
      Event → List String → Table (Subscriber Event) → Table (Subscriber Event) × List String
  fan_out event [] objects = (objects, [])
  fan_out event (r ∷ refs) objects =
      let sub = get r objects in
      let (after, dead) = fan_out event refs (change (offer event) r sub objects) in
      (after, if is_dead sub then r ∷ dead else dead)

  unfoldable pub publish : Event → Bus Event → Bus Event
  publish event bus =
      let (objects, dead) = fan_out event bus.refs bus.objects in
      record { objects = objects; refs = difference bus.refs dead }

  -- `queue.get` of the consumer: the rest of the queue.
  abbrev pub after_get : Subscriber Event → List (Option Event) → Subscriber Event
  after_get s [] = s
  after_get s (item ∷ rest) = record s { queue = rest }

  unfoldable pub taken : Subscriber Event → Subscriber Event
  taken s = after_get s s.queue

  unfoldable pub consume : String → Bus Event → Bus Event
  consume id bus = record bus { objects = change taken id (get id bus.objects) bus.objects }

  -- The last strong reference to a subscriber goes away.
  unfoldable pub collect : String → Bus Event → Bus Event
  collect id bus = record bus { objects = remove id bus.objects }

  abbrev pub empty_bus : Bus Event
  empty_bus = record { objects = []; refs = [] }

-- The calls on the bus, each from its start to its end.
pub data Call (Event : Type 0) : Type 0 where
  subscribing : String → ℕ → Call Event
  unsubscribing consuming collecting : String → Call Event
  publishing : Event → Call Event

module _ {Event : Type 0} where
  abbrev pub step : Call Event → Bus Event → Bus Event
  step (Call.subscribing id max_size) bus = subscribe id max_size bus
  step (Call.unsubscribing id) bus = unsubscribe id bus
  step (Call.consuming id) bus = consume id bus
  step (Call.collecting id) bus = collect id bus
  step (Call.publishing event) bus = publish event bus

  unfoldable pub run : List (Call Event) → Bus Event → Bus Event
  run [] bus = bus
  run (c ∷ cs) bus = run cs (step c bus)

-- The steps of threads that run side by side: whole calls, the put of a publisher that tested the
-- subscriber some time before, and the two halves of `close`, of which the second comes some time
-- after the first.
pub data Action (Event : Type 0) : Type 0 where
  calling : Call Event → Action Event
  putting : String → Event → Action Event
  shutting ending : String → Action Event

module _ {Event : Type 0} where
  -- `sub.queue.put_nowait(event)`, without the test.
  abbrev pub put_event : Event → Subscriber Event → Subscriber Event
  put_event event s = or_dropped s (put_nowait (some event) s)

  -- `self.queue.put_nowait(None)`, once `_closed` is set.
  abbrev pub put_sentinel : Subscriber Event → Subscriber Event
  put_sentinel s = if s.closed then or_dropped s (put_nowait none s) else s

  abbrev pub on : (Subscriber Event → Subscriber Event) → String → Bus Event → Bus Event
  on f id bus = record bus { objects = change f id (get id bus.objects) bus.objects }

  abbrev pub act : Action Event → Bus Event → Bus Event
  act (Action.calling c) bus = step c bus
  act (Action.putting id event) bus = on (put_event event) id bus
  act (Action.shutting id) bus = on shut id bus
  act (Action.ending id) bus = on put_sentinel id bus

  unfoldable pub interleave : List (Action Event) → Bus Event → Bus Event
  interleave [] bus = bus
  interleave (a ∷ as_) bus = interleave as_ (act a bus)
