-- ===== src/Sync/Batch/Cursors.antt =====
-- How a batch moves the cursors.
use rebooter_droids.Base.{
  ℕ, suc, ◌+◌, String, Bool, true, false, Option, none, some, List, [], ◌∷◌, ◌==◌, ◌≡◌, inl, inr,
  refl, arith, eq_iff, if◌then◌else◌, length, subst, sym,
}
use rebooter_droids.Base.Result.{Result-cases}
use rebooter_droids.Base.Table.{Table, put, remove, get-put}
use rebooter_droids.Base.Table.Keyed.{IsKeyed, put-IsKeyed, remove-IsKeyed}
use rebooter_droids.Tenancy.{Scope}
use rebooter_droids.Sync.Types.{Event, Cursor, Db, table_of}
use rebooter_droids.Sync.Session.{Host}
use rebooter_droids.Sync.Apply.{add_tombstone, apply_outbox_event}
use rebooter_droids.Sync.Apply.Preserve.{Keeps, Ensures-ok, add_tombstone-table}
use rebooter_droids.Sync.Apply.Preserve.Events.{apply_outbox_event-Ensures}
use rebooter_droids.Sync.Tables.{AllKeyed, with_table-AllKeyed, with_table-others}
use rebooter_droids.Sync.Batch.{
  Entry, Stats, no_stats, Progress, or_keep, try_event, turn, apply_events, get_sync_cursor,
  update_sync_cursor, save_cursor, apply_event_batch,
}

-- The cursors are these, and the ids of each table are distinct.
record HasCursors (cursors : Table Cursor) (db : Db) : Type 0 where
  pub keyed : AllKeyed db
  pub same : db.cursors ≡ cursors

keeps_cursors :
    (h : Host) (cursors : Table Cursor) (scope : Scope)
    → Keeps h scope (λ i. Unit {0}) (HasCursors cursors)
unfolding add_tombstone
keeps_cursors h cursors scope = record {
  inserted = λ j i row db key fresh d. record {
    keyed =
        with_table-AllKeyed j (put i row (table_of j db)) db
          (put-IsKeyed i row (table_of j db) (d.keyed j)) d.keyed;
    same = ground (arith, with_table-others j (put i row (table_of j db)) db, d.same);
  };
  changed = λ j i row old db here seen d. record {
    keyed =
        with_table-AllKeyed j (put i row (table_of j db)) db
          (put-IsKeyed i row (table_of j db) (d.keyed j)) d.keyed;
    same = ground (arith, with_table-others j (put i row (table_of j db)) db, d.same);
  };
  removed = λ j i old db here seen d. record {
    keyed =
        with_table-AllKeyed j (remove i (table_of j db)) db
          (remove-IsKeyed i (table_of j db) (d.keyed j)) d.keyed;
    same = ground (arith, with_table-others j (remove i (table_of j db)) db, d.same);
  };
  keyed = λ j db d. d.keyed j;
  marked = λ i entity_type seq db d. record {
    keyed =
        λ j. subst IsKeyed (sym (add_tombstone-table h scope j i entity_type seq db)) (d.keyed j);
    same = ground (arith, d.same);
  };
}

try_event-HasCursors :
    (outer : Scope) (h : Host) (cursors : Table Cursor) (p : Progress) (event : Option Event)
    → HasCursors cursors p.db
    → HasCursors cursors (try_event outer h p event).db
try_event-HasCursors outer h cursors p none d = d
try_event-HasCursors outer h cursors p (some event) d =
    let m = apply_outbox_event h outer event p.db in
    let kept =
      apply_outbox_event-Ensures h outer (λ i. Unit {0}) (HasCursors cursors)
        (keeps_cursors h cursors) event p.db
        (λ live scope. record { minted = tt; own = λ j i own. tt }) d in
    elim (Result-cases m) [
      | inl ((true, db'), e) ↦
          rw e (Ensures-ok (λ (out : Bool × Db). HasCursors cursors out.1) m (true, db') e kept)
      | inl ((false, db'), e) ↦
          rw e (Ensures-ok (λ (out : Bool × Db). HasCursors cursors out.1) m (false, db') e kept)
      | inr (x, e) ↦ rw e d
    ]

abbrev handled : Stats → ℕ
handled s = s.applied + s.skipped + s.errors

try_event-handled :
    (outer : Scope) (h : Host) (p : Progress) (event : Option Event)
    → (handled (try_event outer h p event).stats ≡ suc (handled p.stats))
      × ((try_event outer h p event).last_seq ≡ p.last_seq)
try_event-handled outer h p none = (omega arith, refl)
try_event-handled outer h p (some event) =
    elim (Result-cases (apply_outbox_event h outer event p.db)) [
      | inl ((true, db'), e) ↦ rw e (omega arith, refl)
      | inl ((false, db'), e) ↦ rw e (omega arith, refl)
      | inr (x, e) ↦ rw e (omega arith, refl)
    ]

-- The `seq` of the last entry that has one.
abbrev pub last_seq_of : Option ℕ → List Entry → Option ℕ
last_seq_of last [] = last
last_seq_of last (entry ∷ entries) = last_seq_of (or_keep entry.seq last) entries

apply_events-lem :
    (outer : Scope) (entries : List Entry) (cursors : Table Cursor) (p : Progress)
    → HasCursors cursors p.db
    → let q = apply_events outer entries p in
      (handled q.stats ≡ handled p.stats + length entries)
      × (q.last_seq ≡ last_seq_of p.last_seq entries)
      × HasCursors cursors q.db
unfolding apply_events turn
apply_events-lem outer [] cursors p d = (omega arith, refl, d)
apply_events-lem outer (entry ∷ entries) cursors p d =
    let turned = turn outer entry p in
    let (one, seq) = try_event-handled outer entry.host p entry.event in
    let (many, last, d') =
      apply_events-lem outer entries cursors turned
        (try_event-HasCursors outer entry.host cursors p entry.event d) in
    (omega (arith, one, many), ground (arith, last, seq), d')

abbrev seq_or : ℕ → Option ℕ → ℕ
seq_or old none = old
seq_or old (some seq) = seq

cursor_congr :
    (other : String) (a b : Db)
    → a.cursors ≡ b.cursors
    → get_sync_cursor other a ≡ get_sync_cursor other b
unfolding get_sync_cursor
cursor_congr other a b e = ground (arith, e)

save_cursor-seq :
    (now : ℕ) (peer other : String) (last : Option ℕ) (has_error : Bool) (db : Db)
    → get_sync_cursor other (save_cursor now peer last has_error db)
      ≡ (if peer == other then seq_or (get_sync_cursor other db) last else get_sync_cursor other db)
unfolding get_sync_cursor update_sync_cursor
save_cursor-seq now peer other none has_error db = ground arith
save_cursor-seq now peer other (some seq) has_error db =
    let cursor : Cursor = record {
      last_seq = seq;
      updated_at = now;
      has_error = has_error;
      last_error_at = if has_error then some now else none;
    } in
    ground (arith, get-put peer other cursor db.cursors, eq_iff peer other)

-- A batch accounts for each of its entries, and moves the cursor of its peer to the last `seq`
-- among them, whatever became of the events; the cursors of other peers stay where they are.
pub batch-progress :
    (outer : Scope) (now : ℕ) (peer other : String) (entries : List Entry) (db : Db)
    → AllKeyed db
    → let out = apply_event_batch outer now peer entries db in
      (out.0.applied + out.0.skipped + out.0.errors ≡ length entries)
      × (get_sync_cursor other out.1 ≡ (
          if peer == other
          then seq_or (get_sync_cursor other db) (last_seq_of none entries)
          else get_sync_cursor other db))
unfolding apply_event_batch
batch-progress outer now peer other entries db keyed =
    let start : Progress = record {
      stats = no_stats;
      last_seq = none;
      has_error = false;
      db = db;
    } in
    let q = apply_events outer entries start in
    let (many, last, d) =
      apply_events-lem outer entries db.cursors start (record { keyed = keyed; same = refl }) in
    (
      omega (arith, many),
      ground (
        arith,
        save_cursor-seq now peer other q.last_seq q.has_error q.db,
        last,
        cursor_congr other q.db db d.same,
      ),
    )
