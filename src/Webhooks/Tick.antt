-- ===== src/Webhooks/Tick.antt =====
-- `tick` of app/services/webhook_delivery.py. The tick's clock and the one of each send are
-- arguments.
pub mod Batch
pub mod Loop
use rebooter_droids.Base.{
  ℕ, ◌+◌, String, Bool, true, false, ◌&&◌, Option, none, some, List, [], ◌∷◌, leb, take,
  if◌then◌else◌,
}
use rebooter_droids.Base.Table.{Table}
use rebooter_droids.Webhooks.Types.{
  Status, pending, sent, failed, dead, is_waiting, Delivery, Attempt, Rows, batch_size, is_due,
}
use rebooter_droids.Webhooks.Send.{send_one}

unfoldable pub due_rows : ℕ → Table Delivery → Table Delivery
due_rows now [] = []
due_rows now ((id, d) ∷ rest) =
    let later = due_rows now rest in if is_due now d then (id, d) ∷ later else later

-- `next_attempt_at <= next_attempt_at`, on rows that have one.
abbrev pub before : Option ℕ → Option ℕ → Bool
before (some s) (some t) = leb s t
before none _ = true
before (some s) none = false

-- `ORDER BY next_attempt_at`; rows of one instant keep the order of the table.
unfoldable pub insert_row : String → Delivery → Table Delivery → Table Delivery
insert_row k d [] = (k, d) ∷ []
insert_row k d ((j, e) ∷ rest) =
    let further = (j, e) ∷ insert_row k d rest in
    if before d.next_attempt_at e.next_attempt_at then (k, d) ∷ (j, e) ∷ rest else further

unfoldable pub sort_rows : Table Delivery → Table Delivery
unfolding insert_row
sort_rows [] = []
sort_rows ((k, d) ∷ rest) = insert_row k d (sort_rows rest)

-- The rows that the query returns.
unfoldable pub batch : ℕ → Table Delivery → Table Delivery
unfolding due_rows sort_rows
batch now t = take batch_size (sort_rows (due_rows now t))

pub record Stats : Type 0 where
  pub considered : ℕ
  pub sent : ℕ
  pub failed : ℕ
  pub dead : ℕ

abbrev pub no_stats : Stats
no_stats = record { considered = 0; sent = 0; failed = 0; dead = 0 }

abbrev pub count_status : Option Status → Stats → Stats
count_status (some Status.sent) st = record st { sent = st.sent + 1 }
count_status (some Status.dead) st = record st { dead = st.dead + 1 }
count_status (some Status.failed) st = record st { failed = st.failed + 1 }
count_status (some Status.pending) st = st
count_status none st = st

abbrev pub considering : Stats → Stats
considering st = record st { considered = st.considered + 1 }

module _ {Channel : Type 0} (post : Channel → Delivery → Attempt) where
  abbrev pub counted : Stats → Option Status × Rows Channel → Stats × Rows Channel
  counted st (status, rows) = (count_status status (considering st), rows)

  -- The loop over the ids of the batch.
  unfoldable pub send_all : ℕ → Table Delivery → Stats × Rows Channel → Stats × Rows Channel
  send_all clock [] acc = acc
  send_all clock ((id, d) ∷ rest) acc =
      send_all clock rest (counted acc.0 (send_one post clock id acc.1))

  unfoldable pub tick : ℕ → ℕ → Rows Channel → Stats × Rows Channel
  unfolding batch send_all
  tick now clock rows = send_all clock (batch now rows.deliveries) (no_stats, rows)
