-- ===== src/Examples/Webhooks.antt =====
-- Deliveries to a channel that answers 503, then 200, and to one that is gone.
use rebooter_droids.Base.{
  ℕ, ◌+◌, ◌≤◌, false, none, some, ◌≡◌, inl, inr, refl, arith, List, [], ◌∷◌, minutes, length,
  is_some, ◌==◌, Bool-cases, subst, if◌then◌else◌,
}
use rebooter_droids.Base.Table.{get, put}
use rebooter_droids.Base.Table.Keyed.{IsKeyed}
use rebooter_droids.Webhooks.Types.{
  pending, failed, dead, is_waiting, Delivery, Attempt, response, raised, Rows, max_attempts,
}
use rebooter_droids.Webhooks.Send.{attempt, send_row, send_one}
use rebooter_droids.Webhooks.Send.Life.{IsSound, sends, sends-length_le, retry, retry_ends}
use rebooter_droids.Webhooks.Tick.{tick, batch, send_all}
use rebooter_droids.Webhooks.Tick.Loop.{sent_row, tick-row, AllSound}

abbrev fresh : Delivery
fresh = record {
  channel_id = "c";
  status = pending;
  attempts = 0;
  http_status = none;
  next_attempt_at = some 100;
  updated_at = 0;
}

abbrev orphan : Delivery
orphan = record fresh { channel_id = "gone" }

-- A channel is its answer here.
abbrev answer : ℕ → Delivery → Attempt
answer code d = response code

abbrev rows : Rows ℕ
rows = record { deliveries = ("1", fresh) ∷ ("2", orphan) ∷ []; channels = ("c", 503) ∷ [] }

fresh-IsSound : IsSound fresh
fresh-IsSound = record {
  at_most = omega arith;
  left_over = inr (omega arith);
  scheduled = inr refl;
}

orphan-IsSound : IsSound orphan
orphan-IsSound = record {
  at_most = omega arith;
  left_over = inr (omega arith);
  scheduled = inr refl;
}

-- The first failure is retried a minute later; the delivery without a channel is dead.
tick_test :
    (tick answer 100 100 rows).1.deliveries
    ≡ (
      "1",
      record fresh {
        status = failed;
        attempts = 1;
        http_status = some 503;
        next_attempt_at = some (100 + minutes 1);
        updated_at = 100;
      },
    )
      ∷ ("2", record orphan { status = dead; updated_at = 100 })
      ∷ []
unfolding tick send_all send_one send_row attempt get put
tick_test = refl

abbrev visits : List (ℕ × Attempt)
visits =
    (100, response 503)
    ∷ (60_000_100, raised)
    ∷ (400_000_000, response 500)
    ∷ (5_000_000_000, response 500)
    ∷ (9_000_000_000, response 500)
    ∷ (9_900_000_000, response 200)
    ∷ []

sends-length_le_example : length (sends visits fresh) + 0 ≤ max_attempts
sends-length_le_example = sends-length_le visits fresh fresh-IsSound

retry_ends_example :
    is_waiting
      (retry
        ((0, raised) ∷ (5, raised) ∷ (0, response 404) ∷ (1, raised) ∷ (0, raised) ∷ [])
        fresh).status
    ≡ false
retry_ends_example =
    retry_ends ((0, raised) ∷ (5, raised) ∷ (0, response 404) ∷ (1, raised) ∷ (0, raised) ∷ [])
      fresh fresh-IsSound (omega arith)

rows-IsKeyed : IsKeyed rows.deliveries
unfolding get
rows-IsKeyed = (refl, (refl, tt))

rows-AllSound : AllSound rows.deliveries
unfolding get
rows-AllSound j d e = elim (Bool-cases ("1" == j)) [
  | inl one ↦ subst IsSound (ground (arith, one, e)) fresh-IsSound
  | inr no_one ↦ elim (Bool-cases ("2" == j)) [
    | inl two ↦ subst IsSound (ground (arith, no_one, two, e)) orphan-IsSound
    | inr no_two ↦ absurd (ground (arith, no_one, no_two, e))
  ]
]

tick-row_example : get "1" (tick answer 100 100 rows).1.deliveries ≡ (
    if is_some (get "1" (batch 100 rows.deliveries))
    then sent_row answer 100 rows (get "1" rows.deliveries)
    else get "1" rows.deliveries)
tick-row_example = tick-row answer 100 100 "1" rows rows-IsKeyed
