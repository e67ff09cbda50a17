-- ===== src/Sync/Session.antt =====
-- The session of an apply in app/services/sync.py: lookups under the tenant filter, rows that are
-- flushed past the write guard, `resolve_default_site_id` of app/services/sites.py and
-- `resolve_default_org_id` of app/services/bootstrap.py. An update is flushed also where it changes
-- no column, for which the guard asks nothing new.
use rebooter_droids.Base.{
  ℕ, String, Bool, false, not, Option, none, some, List, [], ◌∷◌, ◌==◌, is_some, select,
  if◌then◌else◌,
}
use rebooter_droids.Base.Json.{str}
use rebooter_droids.Base.Result.{Result, ok, err, ◌>>=◌, ◌>>◌, require}
use rebooter_droids.Base.Table.{Table, get, put}
use rebooter_droids.Tenancy.{Scope, Object, Action, CrossOrgWriteError, is_visible, before_flush}
use rebooter_droids.Sync.Types.{
  Stamp, plain, Row, Kind, site, is_scoped, Column, Db, table_of, with_table,
}
use rebooter_droids.Sync.Values.{text_of}

-- What the hub gives to an apply: the columns of the models, the column defaults of a new row, the
-- parser of datetimes, the id of a new site, the time, whether the database accepts the tables of
-- a flush, and whether tenant isolation is enforced.
pub record Host : Type 0 where
  pub columns : Kind → List Column
  pub defaults : Kind → Row
  pub parse : String → Option Stamp
  pub minted_id : String
  pub now : ℕ
  pub accepts : Db → Bool
  pub enforcing : Bool

-- What an apply raises.
pub data SyncError : Type 0 where
  unknown_org : String → SyncError
  cross_org : CrossOrgWriteError → SyncError
  refused no_default_org wrong_type : SyncError

-- A row as the session holds it.
abbrev pub object_of : Kind → Row → Object Row
object_of k row = record {
  scoped = is_scoped k;
  is_audit_event = false;
  organization_id = text_of (get "organization_id" row);
  row = row;
}

abbrev pub with_org : Option String → Row → Row
with_org none row = row
with_org (some org) row = put "organization_id" (plain (str org)) row

abbrev pub flushed_row :
    Result CrossOrgWriteError (List (Object Row) × List Action) → Result SyncError Row
flushed_row (ok (obj ∷ objs, actions)) = ok (with_org obj.organization_id obj.row)
flushed_row (ok ([], actions)) = err refused
flushed_row (err e) = err (cross_org e)

-- The columns of a new row that its values leave out.
unfoldable pub with_defaults : Row → Row → Row
with_defaults [] row = row
with_defaults ((name, value) ∷ rest) row =
    with_defaults rest (if is_some (get name row) then row else put name value row)

abbrev pub is_text : String → Option String → Bool
is_text text none = false
is_text text (some s) = s == text

-- The first row whose column has a text.
unfoldable pub first_with : String → String → Table Row → Option (String × Row)
first_with name text [] = none
first_with name text ((id, row) ∷ rest) =
    let later = first_with name text rest in
    if is_text text (text_of (get name row)) then some (id, row) else later

-- `resolve_default_org_id`
abbrev pub only_id {ℓ} : {A : Type ℓ} → List (String × A) → Option String
only_id ((id, a) ∷ []) = some id
only_id _ = none

unfoldable pub find_slug : String → Table String → Option String
find_slug slug [] = none
find_slug slug ((id, s) ∷ rest) =
    let later = find_slug slug rest in if s == slug then some id else later

abbrev pub or_else {ℓ} : {A : Type ℓ} → Option A → Option A → Option A
or_else (some a) later = some a
or_else none later = later

unfoldable pub resolve_default_org_id : Db → Option String
resolve_default_org_id db =
    or_else (find_slug "default" db.organizations) (only_id db.organizations)

module _ (h : Host) (scope : Scope) where
  -- `before_flush` and the database, on one row that the session adds or changes.
  unfoldable pub store : Kind → String → Row → Db → Result SyncError Db
  store k id row db = do
    row' ← flushed_row (before_flush scope h.enforcing (object_of k row ∷ []))
    let after = with_table k (put id row' (table_of k db)) db
    require (h.accepts after) refused
    ok after

  -- `session.add` of a row, whose key the database does not take twice.
  unfoldable pub insert : Kind → String → Row → Db → Result SyncError Db
  insert k id row db = do
    require (not (is_some (get id (table_of k db)))) refused
    store k id row db

  abbrev pub is_seen : Kind → Row → Bool
  is_seen k row = is_visible scope h.enforcing (object_of k row)

  abbrev pub if_seen : Kind → Option Row → Option Row
  if_seen k none = none
  if_seen k (some row) = if is_seen k row then some row else none

  -- `session.get(model, id)`
  unfoldable pub find : Kind → String → Db → Option Row
  find k id db = if_seen k (get id (table_of k db))

  -- The rows of `select(model)`.
  unfoldable pub seen_rows : Kind → Db → Table Row
  seen_rows k db = select (λ entry. is_seen k entry.1) (table_of k db)

  -- The new site that the fallback ends in.
  abbrev pub create_default_site : Option String → Db → Result SyncError (String × Db)
  create_default_site none db = err no_default_org
  create_default_site (some org) db = do
    let row : Row =
        ("name", plain (str "Default")) ∷ ("organization_id", plain (str org)) ∷ h.defaults site
    db' ← insert site h.minted_id row db
    ok (h.minted_id, db')

  abbrev pub default_site :
      Option (String × Row) → Option String → Db → Result SyncError (String × Db)
  default_site (some (id, row)) only db = ok (id, db)
  default_site none (some id) db = ok (id, db)
  default_site none none db = create_default_site (resolve_default_org_id db) db

  unfoldable pub resolve_default_site_id : Db → Result SyncError (String × Db)
  resolve_default_site_id db =
      let sites = seen_rows site db in
      default_site (first_with "name" "Default" sites) (only_id sites) db
