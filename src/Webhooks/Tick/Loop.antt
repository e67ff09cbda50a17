-- ===== src/Webhooks/Tick/Loop.antt =====
-- What a tick does to each delivery.
use rebooter_droids.Base.{
  ℕ, ◌+◌, ◌≤◌, String, true, false, Option, none, some, ◌≡◌, ◌∙◌, [], ◌∷◌, ◌==◌, eq_iff, refl,
  arith, Bool-cases, Option-cases, inl, inr, length, is_some, subst, if◌then◌else◌,
}
use rebooter_droids.Base.Table.{Table, get, get-put}
use rebooter_droids.Base.Table.Keyed.{IsKeyed}
use rebooter_droids.Webhooks.Types.{Status, Delivery, Attempt, Rows, batch_size, is_waiting}
use rebooter_droids.Webhooks.Send.{send_row, send_found, send_one}
use rebooter_droids.Webhooks.Send.Life.{IsSound, attempt-IsSound}
use rebooter_droids.Webhooks.Tick.{
  batch, Stats, no_stats, count_status, considering, counted, send_all, tick,
}
use rebooter_droids.Webhooks.Tick.Batch.{batch-IsKeyed, batch-due, batch-length_le}

-- Every row is sound.
abbrev pub AllSound : Table Delivery → Type 0
AllSound t = (j : String) (d : Delivery) → get j t ≡ some d → IsSound d

considered-count_status :
    (o : Option Status) (st : Stats) → (count_status o st).considered ≡ st.considered
considered-count_status none st = refl
considered-count_status (some Status.pending) st = refl
considered-count_status (some Status.sent) st = refl
considered-count_status (some Status.failed) st = refl
considered-count_status (some Status.dead) st = refl

module _ {Channel : Type 0} (post : Channel → Delivery → Attempt) (clock : ℕ) where
  -- The row that one send leaves.
  abbrev pub sent_row : Rows Channel → Option Delivery → Option Delivery
  sent_row rows none = none
  sent_row rows (some d) = some (send_row post clock d (get d.channel_id rows.channels))

  send_found-row :
      (id j : String) (rows : Rows Channel) (o : Option Delivery)
      → get id rows.deliveries ≡ o
      → let after = (send_found post clock id rows o).1 in
        (after.channels ≡ rows.channels)
        × (get j after.deliveries
            ≡ (if id == j then sent_row rows (get j rows.deliveries) else get j rows.deliveries))
  send_found-row id j rows none e = (refl, ground (arith, e, eq_iff id j))
  send_found-row id j rows (some d) e = (
    refl,
    ground (
      arith,
      e,
      eq_iff id j,
      get-put id j (send_row post clock d (get d.channel_id rows.channels)) rows.deliveries,
    ),
  )

  send_one-row :
      (id j : String) (rows : Rows Channel)
      → let after = (send_one post clock id rows).1 in
        (after.channels ≡ rows.channels)
        × (get j after.deliveries
            ≡ (if id == j then sent_row rows (get j rows.deliveries) else get j rows.deliveries))
  unfolding send_one
  send_one-row id j rows = send_found-row id j rows (get id rows.deliveries) refl

  sent_row_congr :
      (r s : Rows Channel) (o : Option Delivery)
      → r.channels ≡ s.channels
      → sent_row r o ≡ sent_row s o
  sent_row_congr r s none e = refl
  sent_row_congr r s (some d) e = rw e refl

  send_all-row :
      (ids : Table Delivery) (j : String) (st : Stats) (rows : Rows Channel)
      → IsKeyed ids
      → get j (send_all post clock ids (st, rows)).1.deliveries ≡ (
          if is_some (get j ids)
          then sent_row rows (get j rows.deliveries)
          else get j rows.deliveries)
  unfolding send_all get
  send_all-row [] j st rows u = refl
  send_all-row ((k, d) ∷ rest) j st rows (fresh, u) =
      let one = send_one post clock k rows in
      let step = send_one-row k j rows in
      let ih = send_all-row rest j (counted post st one).0 one.1 u in
      elim (Bool-cases (k == j)) [
        | inl same ↦
            let alone : is_some (get j rest) ≡ false = ground (arith, fresh, same, eq_iff k j) in
            rw same (ih ∙ rw alone (rw same at step.1))
        | inr other ↦ rw other (
            ih
            ∙ rw (rw other at step.1, sent_row_congr one.1 rows (get j rows.deliveries) step.0)
                refl)
      ]

  -- A tick sends each delivery of its batch once, with what the row and its channel were before the
  -- tick, and leaves every other delivery as it was.
  pub tick-row :
      (now : ℕ) (j : String) (rows : Rows Channel)
      → IsKeyed rows.deliveries
      → get j (tick post now clock rows).1.deliveries ≡ (
          if is_some (get j (batch now rows.deliveries))
          then sent_row rows (get j rows.deliveries)
          else get j rows.deliveries)
  unfolding tick
  tick-row now j rows u =
      send_all-row (batch now rows.deliveries) j no_stats rows (batch-IsKeyed now rows.deliveries u)

  send_row-IsSound :
      (d : Delivery) (c : Option Channel)
      → is_waiting d.status ≡ true
      → IsSound d
      → IsSound (send_row post clock d c)
  unfolding send_row
  send_row-IsSound d none w b = ground arith
  send_row-IsSound d (some c) w b = attempt-IsSound clock d (post c d) w b

  considered-send_all :
      (ids : Table Delivery) (st : Stats) (rows : Rows Channel)
      → (send_all post clock ids (st, rows)).0.considered ≡ st.considered + length ids
  unfolding send_all
  considered-send_all [] st rows = omega arith
  considered-send_all ((k, d) ∷ rest) st rows =
      let one = send_one post clock k rows in
      omega (
        arith,
        considered-send_all rest (count_status one.0 (considering st)) one.1,
        considered-count_status one.0 (considering st),
      )

  -- A tick sends at most twenty deliveries.
  pub tick-considered :
      (now : ℕ) (rows : Rows Channel) → (tick post now clock rows).0.considered ≤ batch_size
  unfolding tick
  tick-considered now rows = omega (
    arith,
    considered-send_all (batch now rows.deliveries) no_stats rows,
    batch-length_le now rows.deliveries,
  )

  -- A tick keeps every row sound: no delivery has had more than five attempts, and one that still
  -- waits has attempts left and a next one set.
  pub tick-AllSound :
      (now : ℕ) (rows : Rows Channel)
      → IsKeyed rows.deliveries
      → AllSound rows.deliveries
      → AllSound (tick post now clock rows).1.deliveries
  tick-AllSound now rows u a j d e = elim (Option-cases (get j (batch now rows.deliveries))) [
    | inl out ↦ let same = tick-row now j rows u in a j d (ground (arith, out, same, e))
    | inr (c, within) ↦
        let (here, due) = batch-due now j c rows.deliveries u within in
        let same = tick-row now j rows u in
        let sound =
          send_row-IsSound c (get c.channel_id rows.channels) (ground (arith, due)) (a j c here) in
        subst IsSound (ground (arith, within, here, same, e)) sound
  ]
