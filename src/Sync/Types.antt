-- ===== src/Sync/Types.antt =====
-- The tables that replication reads and writes: app/models/sync.py, and the rows of the syncable
-- models.
use rebooter_droids.Base.{ℕ, String, Bool, true, false, Option, none, some, ◌==◌, if◌then◌else◌}
use rebooter_droids.Base.Json.{Json, Fields}
use rebooter_droids.Base.Table.{Table}

-- A datetime, by its distance from the first instant: on the wall clock of an unknown zone, or UTC.
pub data Stamp : Type 0 where
  naive aware : ℕ → Stamp

-- What a column or an entry of `incoming` holds; None is the null of Json.
pub data Value : Type 0 where
  plain : Json → Value
  datetime : Stamp → Value

-- A row by its columns; its id is the key of the table.
abbrev pub Row : Type 0
Row = Table Value

-- The keys of `_SYNCABLE_MODELS`.
pub data Kind : Type 0 where
  device site group user : Kind

-- `_SYNCABLE_MODELS.get`
unfoldable pub kind_of : String → Option Kind
kind_of t =
    if t == "device"
    then some device
    else if t == "site"
    then some site
    else if t == "group"
    then some group
    else if t == "user"
    then some user
    else none

-- `_NATURAL_KEY.get`
abbrev pub natural_key : Kind → Option String
natural_key device = none
natural_key site = some "name"
natural_key group = some "name"
natural_key user = some "email"

-- `issubclass(model, TenantScoped)`
abbrev pub is_scoped : Kind → Bool
is_scoped device = false
is_scoped site = true
is_scoped group = true
is_scoped user = false

-- `event.entity_type in ("device", "group")`
abbrev pub has_site : Kind → Bool
has_site device = true
has_site site = false
has_site group = true
has_site user = false

-- A column of a model.
pub record Column : Type 0 where
  pub name : String
  pub is_datetime : Bool

-- `OutboxEvent`, as the replicator builds it from a peer's JSON. `claim` is what
-- `scope_claims["organization_id"]` holds, if it is there.
pub record Event : Type 0 where
  pub seq : Option ℕ
  pub at_value : Json
  pub entity_type : String
  pub entity_id : String
  pub payload : Fields
  pub claim : Option Json
  pub tombstone_for : Option String

-- `Tombstone`; the id of the entity is the key.
pub record Tombstone : Type 0 where
  pub entity_type : String
  pub created_at : ℕ
  pub from_outbox_seq : ℕ

-- `SyncCursor`; the id of the peer is the key. Whether there is an error is kept, not its text.
pub record Cursor : Type 0 where
  pub last_seq : ℕ
  pub updated_at : ℕ
  pub has_error : Bool
  pub last_error_at : Option ℕ

-- An organization is its slug.
pub record Db : Type 0 where
  pub devices : Table Row
  pub sites : Table Row
  pub groups : Table Row
  pub users : Table Row
  pub organizations : Table String
  pub tombstones : Table Tombstone
  pub cursors : Table Cursor

abbrev pub table_of : Kind → Db → Table Row
table_of device db = db.devices
table_of site db = db.sites
table_of group db = db.groups
table_of user db = db.users

abbrev pub with_table : Kind → Table Row → Db → Db
with_table device t db = record db { devices = t }
with_table site t db = record db { sites = t }
with_table group t db = record db { groups = t }
with_table user t db = record db { users = t }
