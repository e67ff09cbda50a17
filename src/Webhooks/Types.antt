-- ===== src/Webhooks/Types.antt =====
-- The rows of `webhook_deliveries`: app/models/notifications.py. The rows of `webhook_channels` stay
-- abstract: only the formatters read them.
use rebooter_droids.Base.{ℕ, String, Bool, true, false, ◌&&◌, Option, none, some, leb}
use rebooter_droids.Base.Table.{Table}

-- `DELIVERY_STATUSES`
pub data Status : Type 0 where
  pending sent failed dead : Status

-- `status.in_((DELIVERY_PENDING, DELIVERY_FAILED))`
abbrev pub is_waiting : Status → Bool
is_waiting pending = true
is_waiting failed = true
is_waiting _ = false

-- A row; its id is the key of the table. The texts of errors are not kept.
pub record Delivery : Type 0 where
  pub channel_id : String
  pub status : Status
  pub attempts : ℕ
  pub http_status : Option ℕ
  pub next_attempt_at : Option ℕ
  pub updated_at : ℕ

-- What formatting, signing and the guarded request end in: a response's status code, the guard's
-- refusal, or any other exception.
pub data Attempt : Type 0 where
  response : ℕ → Attempt
  blocked raised : Attempt

-- Both tables.
pub record Rows (Channel : Type 0) : Type 0 where
  pub deliveries : Table Delivery
  pub channels : Table Channel

-- `MAX_ATTEMPTS`
abbrev pub max_attempts : ℕ
max_attempts = 5

-- `BATCH_SIZE`
abbrev pub batch_size : ℕ
batch_size = 20

-- `next_attempt_at`, which the query has not null.
abbrev pub due_by : Option ℕ → ℕ → Bool
due_by none now = false
due_by (some t) now = leb t now

-- The `WHERE` of the query.
abbrev pub is_due : ℕ → Delivery → Bool
is_due now d = is_waiting d.status && due_by d.next_attempt_at now
