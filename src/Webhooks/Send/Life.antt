-- ===== src/Webhooks/Send/Life.antt =====
-- The life of one delivery: how often it is sent, when, and how it ends.
use rebooter_droids.Base.{
  ℕ, ◌+◌, ◌*◌, ◌≤◌, ◌<◌, true, false, none, some, ◌≡◌, ◌⊎◌, inl, inr, arith, List, [], ◌∷◌,
  Bool-cases, Option-cases, minutes, length, is_some, if◌then◌else◌,
}
use rebooter_droids.Webhooks.Types.{
  is_waiting, Delivery, Attempt, response, blocked, raised, max_attempts, is_due,
}
use rebooter_droids.Webhooks.Send.{attempt}

-- No row has had more than five attempts; one that waits has attempts left, and a next one set.
pub record IsSound (d : Delivery) : Type 0 where
  pub at_most : d.attempts ≤ max_attempts
  pub left_over : (is_waiting d.status ≡ false) ⊎ (d.attempts < max_attempts)
  pub scheduled : (is_waiting d.status ≡ false) ⊎ (is_some d.next_attempt_at ≡ true)

pub attempt-IsSound :
    (now : ℕ) (d : Delivery) (a : Attempt)
    → is_waiting d.status ≡ true
    → IsSound d
    → IsSound (attempt now d a)
unfolding attempt
attempt-IsSound now d (response code) w b = ground arith
attempt-IsSound now d blocked w b = ground arith
attempt-IsSound now d raised w b = ground arith

-- What an attempt leaves: an end, or a retry after the square of the attempts in minutes.
pub attempt-outcome :
    (now : ℕ) (d : Delivery) (a : Attempt)
    → let d' = attempt now d a in
      (d'.attempts ≡ d.attempts + 1)
      × (((is_waiting d'.status ≡ false) × (d'.next_attempt_at ≡ none))
          ⊎ ((d'.next_attempt_at ≡ some (now + minutes ((d.attempts + 1) * (d.attempts + 1))))
              × (d.attempts + 1 < max_attempts)))
unfolding attempt
attempt-outcome now d (response code) = ground arith
attempt-outcome now d blocked = ground arith
attempt-outcome now d raised = ground arith

-- The times at which a delivery is sent when the worker comes at the given times and the requests
-- end as given: a row that is not due is passed over.
unfoldable pub sends : List (ℕ × Attempt) → Delivery → List ℕ
sends [] d = []
sends ((now, a) ∷ rest) d =
    let later = sends rest d in
    let next = now ∷ sends rest (attempt now d a) in if is_due now d then next else later

-- A delivery is sent at most five times in its life, whatever the requests end in and whenever the
-- worker comes.
pub sends-length_le :
    (visits : List (ℕ × Attempt)) (d : Delivery)
    → IsSound d
    → length (sends visits d) + d.attempts ≤ max_attempts
unfolding sends
sends-length_le [] d b = omega (arith, b.at_most)
sends-length_le ((now, a) ∷ rest) d b = elim (Bool-cases (is_due now d)) [
  | inl due ↦
      let waiting : is_waiting d.status ≡ true = ground (arith, due) in
      let ih = sends-length_le rest (attempt now d a) (attempt-IsSound now d a waiting b) in
      let (more, _) = attempt-outcome now d a in rw due (omega (arith, ih, more))
  | inr idle ↦ rw idle (sends-length_le rest d b)
]

-- The row after a worker that comes each time it is due, the given while later.
unfoldable pub retry : List (ℕ × Attempt) → Delivery → Delivery
retry [] d = d
retry ((late, a) ∷ rest) d = elim d.next_attempt_at [
  | none ↦ d
  | some t ↦ if is_waiting d.status then retry rest (attempt (t + late) d a) else d
]

-- However the requests end, a delivery has come to its end, sent or dead, once the worker has come
-- as often as it had attempts left, each time at or after the time that was set.
pub retry_ends :
    (visits : List (ℕ × Attempt)) (d : Delivery)
    → IsSound d
    → max_attempts ≤ d.attempts + length visits
    → is_waiting (retry visits d).status ≡ false
unfolding retry attempt
retry_ends [] d b l = ground (arith, b.left_over)
retry_ends ((late, a) ∷ rest) d b l = elim (Bool-cases (is_waiting d.status)) [
  | inr done ↦ elim (Option-cases d.next_attempt_at) [
    | inl unset ↦ rw unset done
    | inr (t, set) ↦ rw (set, done) done
  ]
  | inl waiting ↦ elim (Option-cases d.next_attempt_at) [
    | inl unset ↦ absurd (ground (arith, waiting, unset, b.scheduled))
    | inr (t, set) ↦
        let (more, _) = attempt-outcome (t + late) d a in
        let next = attempt-IsSound (t + late) d a waiting b in
        rw (set, waiting) (retry_ends rest (attempt (t + late) d a) next (omega (arith, more, l)))
  ]
]
