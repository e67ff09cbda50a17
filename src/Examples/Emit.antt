-- ===== src/Examples/Emit.antt =====
-- An event of one site, with a subscription to it, one to another site and one whose channel is off.
use rebooter_droids.Base.{ℕ, zero, suc, String, true, false, Option, none, some, List, [], ◌∷◌, ◌≡◌}
use rebooter_droids.Base.Table.{get}
use rebooter_droids.Webhooks.Types.{Rows}
use rebooter_droids.Webhooks.Emit.{
  Channel, Subscription, is_event_type, is_subscribed, is_elsewhere, new_delivery, emit,
}
use rebooter_droids.Webhooks.Emit.Queued.{emit-queued}

abbrev mint : ℕ → String
mint zero = "d0"
mint (suc n) = "d1"

abbrev to_site : Option String → String → Subscription
to_site site channel = record {
  event_type = "device.failsafe";
  channel_id = channel;
  site_id = site;
  enabled = true;
}

abbrev subs : List Subscription
subs =
    to_site none "on"
    ∷ to_site (some "paris") "on"
    ∷ to_site none "off"
    ∷ to_site (some "rome") "on"
    ∷ []

abbrev rows : Rows (Channel ℕ)
rows = record {
  deliveries = [];
  channels =
      ("on", record { enabled = true; config = 0 })
      ∷ ("off", record { enabled = false; config = 0 })
      ∷ [];
}

abbrev two_queued : Rows (Channel ℕ)
two_queued = record rows {
  deliveries = ("d0", new_delivery 5 "on") ∷ ("d1", new_delivery 5 "on") ∷ [];
}

emit-queued_example : emit mint 5 "device.failsafe" (some "rome") subs rows ≡ (2, two_queued)
unfolding is_event_type is_subscribed is_elsewhere get
emit-queued_example = emit-queued mint 5 "device.failsafe" (some "rome") subs rows
