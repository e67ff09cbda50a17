-- ===== src/Sync/Batch.antt =====
-- A batch of a peer's events: `_apply_event_batch` of app/services/sync_replicator.py with the
-- cursor of app/services/sync.py. An event is what the replicator makes of a peer's entry, or
-- `none` where that raises. The host is what one apply gets, and so differs from event to event.
pub mod Cursors
use rebooter_droids.Base.{
  ℕ, suc, String, Bool, true, false, Option, none, some, List, [], ◌∷◌, if◌then◌else◌,
}
use rebooter_droids.Base.Result.{Result, ok, err, ◌>>=◌}
use rebooter_droids.Base.Table.{get, put}
use rebooter_droids.Tenancy.{Scope}
use rebooter_droids.Sync.Types.{Event, Cursor, Db}
use rebooter_droids.Sync.Session.{Host, SyncError}
use rebooter_droids.Sync.Apply.{apply_outbox_event}

-- An entry of the batch: its `seq`, and the event that it makes.
pub record Entry : Type 0 where
  pub host : Host
  pub seq : Option ℕ
  pub event : Option Event

pub record Stats : Type 0 where
  pub applied : ℕ
  pub skipped : ℕ
  pub errors : ℕ

abbrev pub no_stats : Stats
no_stats = record { applied = 0; skipped = 0; errors = 0 }

-- The variables of the loop. Of `last_error` it is kept whether it is set.
pub record Progress : Type 0 where
  pub stats : Stats
  pub last_seq : Option ℕ
  pub has_error : Bool
  pub db : Db

abbrev pub or_keep : Option ℕ → Option ℕ → Option ℕ
or_keep none last = last
or_keep (some seq) last = some seq

-- `except Exception`
abbrev pub raised : Progress → Progress
raised p = record p { stats = record (p.stats) { errors = suc p.stats.errors }; has_error = true }

-- What the outcome of a transaction does to the loop's variables: one that raises is rolled back.
abbrev pub after_apply : Progress → Result SyncError (Bool × Db) → Progress
after_apply p (ok (true, db)) = record p {
  stats = record (p.stats) { applied = suc p.stats.applied };
  db = db;
}
after_apply p (ok (false, db)) = record p {
  stats = record (p.stats) { skipped = suc p.stats.skipped };
  db = db;
}
after_apply p (err e) = raised p

abbrev pub try_event : Scope → Host → Progress → Option Event → Progress
try_event outer h p none = raised p
try_event outer h p (some event) = after_apply p (apply_outbox_event h outer event p.db)

abbrev pub advanced : Option ℕ → Progress → Progress
advanced seq p = record p { last_seq = or_keep seq p.last_seq }

-- One turn of the loop.
unfoldable pub turn : Scope → Entry → Progress → Progress
turn outer entry p = advanced entry.seq (try_event outer entry.host p entry.event)

unfoldable pub apply_events : Scope → List Entry → Progress → Progress
apply_events outer [] p = p
apply_events outer (entry ∷ entries) p = apply_events outer entries (turn outer entry p)

-- `get_sync_cursor`
abbrev pub cursor_seq : Option Cursor → ℕ
cursor_seq none = 0
cursor_seq (some cursor) = cursor.last_seq

unfoldable pub get_sync_cursor : String → Db → ℕ
get_sync_cursor peer db = cursor_seq (get peer db.cursors)

-- `update_sync_cursor`, which writes the same columns into a row that is there and into a new one.
unfoldable pub update_sync_cursor : ℕ → String → ℕ → Bool → Db → Db
update_sync_cursor now peer last_seq has_error db = record db {
  cursors =
      put peer
        (record {
          last_seq = last_seq;
          updated_at = now;
          has_error = has_error;
          last_error_at = if has_error then some now else none;
        })
        db.cursors;
}

-- `if last_seq is not None`
abbrev pub save_cursor : ℕ → String → Option ℕ → Bool → Db → Db
save_cursor now peer none has_error db = db
save_cursor now peer (some last_seq) has_error db =
    update_sync_cursor now peer last_seq has_error db

unfoldable pub apply_event_batch : Scope → ℕ → String → List Entry → Db → Stats × Db
apply_event_batch outer now peer entries db =
    let p =
      apply_events outer entries
        (record { stats = no_stats; last_seq = none; has_error = false; db = db }) in
    (p.stats, save_cursor now peer p.last_seq p.has_error p.db)
