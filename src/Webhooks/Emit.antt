-- ===== src/Webhooks/Emit.antt =====
-- `emit` and `_queue_for_channel` of app/services/notifications.py: the deliveries that an event
-- queues. The event's type and payload stay out of the row, as in Types. The database of the model
-- raises nothing, so the clause that swallows exceptions is never taken.
pub mod Queued
use rebooter_droids.Base.{
  ℕ, suc, String, Bool, true, false, select, not, ◌&&◌, ◌||◌, Option, none, some, List, [], ◌∷◌,
  ◌++◌, ◌==◌, if◌then◌else◌,
}
use rebooter_droids.Base.Table.{Table, get}
use rebooter_droids.Webhooks.Types.{Delivery, Rows, pending}

-- The columns of a channel that `emit` reads, and the ones that formatting reads.
pub record Channel (Config : Type 0) : Type 0 where
  pub enabled : Bool
  pub config : Config

pub record Subscription : Type 0 where
  pub event_type : String
  pub channel_id : String
  pub site_id : Option String
  pub enabled : Bool

-- `event_type in EVENT_TYPES`
unfoldable pub is_event_type : String → Bool
is_event_type t =
    t == "watchdog.rule_fired"
    || t == "watchdog.rule_escalated"
    || t == "device.went_offline"
    || t == "device.recovered"
    || t == "device.failsafe"
    || t == "firmware.deployment_completed"

-- The `WHERE` of the query.
unfoldable pub is_subscribed : String → Subscription → Bool
is_subscribed event_type sub = sub.event_type == event_type && sub.enabled

-- `sub.site_id and site_id and sub.site_id != site_id`
unfoldable pub is_elsewhere : Option String → Option String → Bool
is_elsewhere (some filter) (some site) =
    not (filter == "") && not (site == "") && not (filter == site)
is_elsewhere _ _ = false

-- The row of `_queue_for_channel`.
abbrev pub new_delivery : ℕ → String → Delivery
new_delivery now channel_id = record {
  channel_id = channel_id;
  status = pending;
  attempts = 0;
  http_status = none;
  next_attempt_at = some now;
  updated_at = now;
}

-- `channel is None or not channel.enabled`
abbrev pub is_off : {Config : Type 0} → Option (Channel Config) → Bool
is_off none = true
is_off (some channel) = not channel.enabled

module _ (mint : ℕ → String) (now : ℕ) where
  -- The insertion of a row, under an id that it mints.
  unfoldable pub queue_for_channel : ℕ → String → Table Delivery → Table Delivery
  queue_for_channel queued channel_id deliveries =
      deliveries ++ (mint queued, new_delivery now channel_id) ∷ []

module _ {Config : Type 0} (mint : ℕ → String) (now : ℕ) where
  -- The loop over the subscriptions that the query returns, with its counter.
  unfoldable pub queue_all :
      Option String
      → Table (Channel Config)
      → List Subscription
      → ℕ × Table Delivery
      → ℕ × Table Delivery
  queue_all site channels [] (queued, deliveries) = (queued, deliveries)
  queue_all site channels (sub ∷ subs) (queued, deliveries) =
      let next =
        if is_elsewhere sub.site_id site || is_off (get sub.channel_id channels)
        then (queued, deliveries)
        else (suc queued, queue_for_channel mint now queued sub.channel_id deliveries) in
      queue_all site channels subs next

  unfoldable pub emit :
      String → Option String → List Subscription → Rows (Channel Config) → ℕ × Rows (Channel Config)
  emit event_type site subs rows =
      let (queued, deliveries) =
        queue_all site rows.channels (select (is_subscribed event_type) subs)
          (0, rows.deliveries) in
      if is_event_type event_type
      then (queued, record rows { deliveries = deliveries })
      else (0, rows)
