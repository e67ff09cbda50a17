-- ===== src/Webhooks/Send.antt =====
-- `send_one` of app/services/webhook_delivery.py. What a request gives, `post`, and the clock are
-- parameters; a call reads the clock once.
pub mod Life
use rebooter_droids.Base.{
  ℕ, ◌+◌, ◌*◌, String, Bool, true, false, ◌&&◌, Option, none, some, leb, ltb, minutes,
  if◌then◌else◌,
}
use rebooter_droids.Base.Table.{Table, get, put}
use rebooter_droids.Webhooks.Types.{
  Status, sent, failed, dead, Delivery, Attempt, response, blocked, raised, Rows, max_attempts,
}

-- `_backoff_delay`
abbrev pub backoff_delay : ℕ → ℕ
backoff_delay attempts = minutes (attempts * attempts)

-- `_schedule_retry_or_dead`
abbrev pub schedule_retry_or_dead : ℕ → Delivery → Delivery
schedule_retry_or_dead now d =
    if leb max_attempts d.attempts
    then record d { status = dead; next_attempt_at = none }
    else record d { status = failed; next_attempt_at = some (now + backoff_delay d.attempts) }

-- The body of the `try`, and its `except` clauses.
abbrev pub finish : ℕ → Delivery → Attempt → Delivery
finish now d (response code) =
    if leb 200 code && ltb code 300
    then record d { http_status = some code; status = sent; next_attempt_at = none }
    else schedule_retry_or_dead now (record d { http_status = some code })
finish now d blocked = record d { status = dead; next_attempt_at = none }
finish now d raised = schedule_retry_or_dead now d

-- One more attempt on a row whose channel is there.
unfoldable pub attempt : ℕ → Delivery → Attempt → Delivery
attempt now d a = finish now (record d { attempts = d.attempts + 1; updated_at = now }) a

-- A row whose channel is gone.
abbrev pub channel_deleted : ℕ → Delivery → Delivery
channel_deleted now d = record d { status = dead; updated_at = now }

module _ {Channel : Type 0} (post : Channel → Delivery → Attempt) where
  -- The row after the call, on what `session.get` finds for the channel.
  unfoldable pub send_row : ℕ → Delivery → Option Channel → Delivery
  unfolding attempt
  send_row now d none = channel_deleted now d
  send_row now d (some channel) = attempt now d (post channel d)

  abbrev pub send_found : ℕ → String → Rows Channel → Option Delivery → Option Status × Rows Channel
  send_found now id rows none = (none, rows)
  send_found now id rows (some d) =
      let d' = send_row now d (get d.channel_id rows.channels) in
      (some d'.status, record rows { deliveries = put id d' rows.deliveries })

  -- `send_one`: the status that it reports, `none` where there is no such row.
  unfoldable pub send_one : ℕ → String → Rows Channel → Option Status × Rows Channel
  unfolding send_row
  send_one now id rows = send_found now id rows (get id rows.deliveries)
