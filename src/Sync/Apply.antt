-- ===== src/Sync/Apply.antt =====
-- `apply_outbox_event` and `_apply_outbox_event` of app/services/sync.py. A payload's `id` is a text
-- where it is one that the database takes. What `ON DELETE` rules do to other tables is left out,
-- and so are the hooks of emission, which are suppressed here.
pub mod Preserve
pub mod Tombstones
pub mod Isolation
pub mod Writers
use rebooter_droids.Base.{
  ℕ, String, Bool, true, false, not, ◌&&◌, ◌||◌, Option, none, some, List, [], ◌∷◌, ◌==◌, leb,
  is_some, if◌then◌else◌,
}
use rebooter_droids.Base.Json.{Json, null, str, get_field, Fields}
use rebooter_droids.Base.Result.{Result, ok, err, ◌>>=◌, ◌>>◌, require}
use rebooter_droids.Base.Table.{Table, get, put, remove}
use rebooter_droids.Tenancy.{Scope, Block, system, org_context}
use rebooter_droids.Sync.Types.{
  Value, plain, Row, Kind, kind_of, natural_key, is_scoped, has_site, Event, Tombstone, Db,
  table_of, with_table, site,
}
use rebooter_droids.Sync.Values.{
  text_of, is_none, is_true, as_utc, coerce_datetime, incoming_of, set_all,
}
use rebooter_droids.Sync.Session.{
  Host, SyncError, unknown_org, refused, wrong_type, with_defaults, first_with, or_else, store,
  insert, find, seen_rows, resolve_default_site_id,
}

abbrev pub with_default_site : String → Row → Row
with_default_site id incoming = put "site_id" (plain (str id)) incoming

-- `if scoped_org is not None and issubclass(model, TenantScoped)`
abbrev pub pinned : Option String → Kind → Row → Row
pinned none k incoming = incoming
pinned (some org) k incoming =
    if is_scoped k then put "organization_id" (plain (str org)) incoming else incoming

-- `is_tombstoned`
abbrev pub is_tombstoned : Db → String → Bool
is_tombstoned db id = is_some (get id db.tombstones)

-- `event.seq or 0`
abbrev pub seq_or_zero : Option ℕ → ℕ
seq_or_zero none = 0
seq_or_zero (some n) = n

abbrev pub or_null : Option Json → Json
or_null none = null
or_null (some v) = v

abbrev pub value_or_null : Option Value → Value
value_or_null none = plain null
value_or_null (some v) = v

-- `incoming_updated <= existing_updated`, where neither is None
abbrev pub is_stale : Option ℕ → Option ℕ → Bool
is_stale (some incoming) (some existing) = leb incoming existing
is_stale _ _ = false

-- `if event.tombstone_for`
abbrev pub deleted_id : Option String → Option String
deleted_id none = none
deleted_id (some id) = if id == "" then none else some id

-- `incoming.setdefault("id", event.entity_id)`
abbrev pub id_or : String → Option Value → Option String
id_or entity_id none = some entity_id
id_or entity_id (some v) = text_of (some v)

abbrev pub with_id : String → Option Row → Option (String × Row)
with_id id none = none
with_id id (some row) = some (id, row)

-- `session.delete`, where there is a row.
abbrev pub delete_row : Kind → String → Option Row → Db → Db
delete_row k id none db = db
delete_row k id (some row) db = with_table k (remove id (table_of k db)) db

module _ (h : Host) (scope : Scope) where
  -- `add_tombstone`
  unfoldable pub add_tombstone : String → String → ℕ → Db → Db
  add_tombstone id entity_type seq db = if is_tombstoned db id then db else record db {
    tombstones =
        put id (record { entity_type = entity_type; created_at = h.now; from_outbox_seq = seq })
          db.tombstones;
  }

  -- The branch of a delete event, with the flush.
  unfoldable pub delete_entity : Kind → Event → String → Db → Result SyncError (Bool × Db)
  delete_entity k event id db = do
    let marked = add_tombstone id event.entity_type (seq_or_zero event.seq) db
    let after = delete_row k id (find h scope k id db) marked
    require (h.accepts after) refused
    ok (true, after)

  -- The remap of a site that is not found.
  abbrev pub remap_found : Row → Db → Bool → Result SyncError (Row × Db)
  remap_found incoming db true = ok (incoming, db)
  remap_found incoming db false = do
    (id, db') ← resolve_default_site_id h scope db
    ok (with_default_site id incoming, db')

  -- `session.get(Site, …)`, on a value that is true
  abbrev pub is_site : Db → Option String → Bool
  is_site db none = false
  is_site db (some id) = is_some (find h scope site id db)

  unfoldable pub remap_site : Kind → Row → Db → Result SyncError (Row × Db)
  remap_site k incoming db =
      let value = get "site_id" incoming in
      remap_found incoming db
        (not (has_site k && is_true (value_or_null value)) || is_site db (text_of value))

  abbrev pub same_key : Kind → String → Option String → Db → Option (String × Row)
  same_key k name none db = none
  same_key k name (some text) db = first_with name text (seen_rows h scope k db)

  -- The row with the same natural key.
  abbrev pub by_natural_key : Kind → Option String → Row → Db → Option (String × Row)
  by_natural_key k none incoming db = none
  by_natural_key k (some name) incoming db = same_key k name (text_of (get name incoming)) db

  abbrev pub create : Kind → Row → Db → Option String → Result SyncError (Bool × Db)
  create k incoming db none = err refused
  create k incoming db (some id) = do
    db' ← insert h scope k id (with_defaults (h.defaults k) (remove "id" incoming)) db
    ok (true, db')

  abbrev pub overwrite_newer : Kind → Row → String → Row → Db → Bool → Result SyncError (Bool × Db)
  overwrite_newer k incoming id row db true = ok (false, db)
  overwrite_newer k incoming id row db false = do
    db' ← store h scope k id (set_all incoming row) db
    ok (true, db')

  -- Last-writer-wins on a row that is there.
  unfoldable pub overwrite :
      Kind → Row → Option ℕ → String × Row → Db → Result SyncError (Bool × Db)
  overwrite k incoming incoming_updated (id, row) db = do
    existing_updated ← as_utc wrong_type (value_or_null (get "updated_at" row))
    overwrite_newer k incoming id row db (is_stale incoming_updated existing_updated)

  abbrev pub write :
      Kind → Event → Row → Option ℕ → Db → Option (String × Row) → Result SyncError (Bool × Db)
  write k event incoming incoming_updated db none =
      create k incoming db (id_or event.entity_id (get "id" incoming))
  write k event incoming incoming_updated db (some found) =
      overwrite k incoming incoming_updated found db

  -- `_coerce_datetime(payload.get("updated_at")) or _coerce_datetime(event.at)`
  abbrev pub updated_value : Event → Value
  updated_value event =
      let own = coerce_datetime h.parse (or_null (get_field "updated_at" event.payload)) in
      if is_true own then own else coerce_datetime h.parse event.at_value

  -- The branch of a create or an update, once `incoming` is pinned.
  unfoldable pub upsert_pinned : Kind → Event → Row → Db → Result SyncError (Bool × Db)
  upsert_pinned k event incoming db = do
    (remapped, db') ← remap_site k incoming db
    incoming_updated ← as_utc wrong_type (updated_value event)
    write k event remapped incoming_updated db' (
        or_else (with_id event.entity_id (find h scope k event.entity_id db'))
          (by_natural_key k (natural_key k) remapped db'))

  -- `if not incoming`
  abbrev pub upsert_incoming :
      Option String → Kind → Event → Row → Db → Result SyncError (Bool × Db)
  upsert_incoming scoped_org k event [] db = ok (false, db)
  upsert_incoming scoped_org k event (entry ∷ rest) db =
      upsert_pinned k event (pinned scoped_org k (entry ∷ rest)) db

  unfoldable pub upsert : Option String → Kind → Event → Db → Result SyncError (Bool × Db)
  upsert scoped_org k event db =
      upsert_incoming scoped_org k event (incoming_of h.parse (h.columns k) event.payload) db

  abbrev pub apply_to :
      Option String → Event → Db → Option Kind → Option String → Result SyncError (Bool × Db)
  apply_to scoped_org event db none deleted = ok (false, db)
  apply_to scoped_org event db (some k) (some id) = delete_entity k event id db
  apply_to scoped_org event db (some k) none = upsert scoped_org k event db

  -- `_apply_outbox_event`
  unfoldable pub apply_scoped : Option String → Event → Db → Result SyncError (Bool × Db)
  apply_scoped scoped_org event db =
      if is_tombstoned db event.entity_id
      then ok (false, db)
      else apply_to scoped_org event db (kind_of event.entity_type) (deleted_id event.tombstone_for)

-- `event_org_id`
abbrev pub event_org_id : Option Json → Option String
event_org_id (some (str org)) = if org == "" then none else some org
event_org_id _ = none

-- `_apply_outbox_event` as the block of a scope.
abbrev pub apply_block : Host → Option String → Event → Db → Block (Result SyncError (Bool × Db))
apply_block h scoped_org event db scope = (apply_scoped h scope scoped_org event db, scope)

abbrev pub apply_for : Host → Scope → Event → Db → Option String → Result SyncError (Bool × Db)
apply_for h outer event db none = (system (apply_block h none event db) outer).0
apply_for h outer event db (some org) = do
  require (is_some (get org db.organizations)) (unknown_org org)
  (org_context org (apply_block h (some org) event db) outer).0

unfoldable pub apply_outbox_event : Host → Scope → Event → Db → Result SyncError (Bool × Db)
unfolding system org_context
apply_outbox_event h outer event db = apply_for h outer event db (event_org_id event.claim)
