-- ===== src/Sync/Apply/Preserve.antt =====
-- What holds of the tables and is kept by each of the writes of an apply is kept by the apply.
pub mod Writes
pub mod Events
use rebooter_droids.Base.{
  ℕ, String, Bool, true, false, not, ◌&&◌, ◌||◌, Option, none, some, List, [], ◌∷◌, ◌++◌, ◌==◌, ◌≡◌,
  ◌⊎◌, inl, inr, refl, arith, eq_iff, Bool-cases, Option-cases, if◌then◌else◌, is_some, subst, sym,
  ◌∙◌, ap, In, select,
}
use rebooter_droids.Base.Json.{str}
use rebooter_droids.Base.Result.{Result, ok, err, ◌>>=◌, ◌>>◌, require, Result-cases}
use rebooter_droids.Base.Table.{Table, get, put, remove, get-put}
use rebooter_droids.Base.Table.Keyed.{IsKeyed, get_of_In}
use rebooter_droids.Tenancy.{Scope, before_flush, system, org_context}
use rebooter_droids.Sync.Types.{
  Value, plain, Row, Kind, kind_of, natural_key, is_scoped, has_site, Event, Db, table_of,
  with_table, device, site, group, user,
}
use rebooter_droids.Sync.Values.{text_of, is_none, is_true, as_utc, incoming_of, set_all}
use rebooter_droids.Sync.Session.{
  Host, SyncError, wrong_type, refused, with_defaults, first_with, or_else, store, insert, is_seen,
  if_seen, find, seen_rows, only_id, create_default_site, default_site, resolve_default_site_id,
  resolve_default_org_id, object_of, flushed_row,
}
use rebooter_droids.Sync.Apply.{
  with_default_site, pinned, seq_or_zero, deleted_id, is_stale, id_or, add_tombstone, delete_row,
  delete_entity, remap_found, is_site, remap_site, same_key, by_natural_key, create, overwrite,
  overwrite_newer, with_id, write, updated_value, upsert_pinned, upsert_incoming, upsert, apply_to,
  apply_scoped, apply_for, apply_outbox_event, event_org_id, value_or_null, is_tombstoned,
}

-- Whatever tables a call returns have the property.
abbrev pub Ensures : {A : Type 0} → (A → Type 0) → Result SyncError A → Type 0
Ensures P (ok a) = P a
Ensures P (err e) = Unit

pub Ensures-ok :
    {A : Type 0} (P : A → Type 0) (m : Result SyncError A) (a : A) → m ≡ ok a → Ensures P m → P a
Ensures-ok P (ok b) a e h = subst P (cc) h
Ensures-ok P (err x) a e h = cc

pub Ensures-if :
    {A : Type 0} (P : A → Type 0) (b : Bool) (m : Result SyncError A)
    → (b ≡ true → Ensures P m)
    → Ensures P (require b refused >> m)
Ensures-if P true m h = h refl
Ensures-if P false m h = tt

pub first_with-In :
    (name text id : String) (row : Row) (rows : Table Row)
    → first_with name text rows ≡ some (id, row)
    → In (id, row) rows
unfolding first_with
first_with-In name text id row [] e = cc
first_with-In name text id row ((j, r) ∷ rest) e =
    ground (arith, e, first_with-In name text id row rest)

pub In-select :
    {A : Type 0} (p : A → Bool) (x : A) (xs : List A) → In x (select p xs) → In x xs × (p x ≡ true)
In-select p x [] i = elim i [ ]
In-select p x (y ∷ ys) i = elim (Bool-cases (p y)) [
  | inl e ↦ elim (rw e at i) [
    | inl same ↦ (inl same, ground (arith, same, e))
    | inr later ↦ let (within, q) = In-select p x ys later in (inr within, q)
  ]
  | inr e ↦ let (within, q) = In-select p x ys (rw e at i) in (inr within, q)
]

module _ (h : Host) (scope : Scope) where
  -- A property that the writes of an apply keep, where the ids of new rows are keys.
  pub record Keeps (Key : String → Type 0) (P : Db → Type 0) : Type 0 where
    pub inserted :
        (k : Kind) (id : String) (row : Row) (db : Db)
        → Key id
        → get id (table_of k db) ≡ none
        → P db
        → P (with_table k (put id row (table_of k db)) db)
    pub changed :
        (k : Kind) (id : String) (row old : Row) (db : Db)
        → get id (table_of k db) ≡ some old
        → is_seen h scope k old ≡ true
        → P db
        → P (with_table k (put id row (table_of k db)) db)
    pub removed :
        (k : Kind) (id : String) (old : Row) (db : Db)
        → get id (table_of k db) ≡ some old
        → is_seen h scope k old ≡ true
        → P db
        → P (with_table k (remove id (table_of k db)) db)
    pub keyed : (k : Kind) (db : Db) → P db → IsKeyed (table_of k db)
    pub marked :
        (id entity_type : String) (seq : ℕ) (db : Db)
        → P db
        → P (add_tombstone h scope id entity_type seq db)

  pub store-Ensures :
      (P : Db → Type 0) (k : Kind) (id : String) (row : Row) (db : Db)
      → ((row' : Row) → P (with_table k (put id row' (table_of k db)) db))
      → Ensures P (store h scope k id row db)
  unfolding store
  store-Ensures P k id row db keep =
      elim (Result-cases (flushed_row (before_flush scope h.enforcing (object_of k row ∷ [])))) [
        | inl (row', e) ↦
            let after = with_table k (put id row' (table_of k db)) db in
            rw e (Ensures-if P (h.accepts after) (ok after) (λ fits. keep row'))
        | inr (x, e) ↦ rw e tt
      ]

  pub find-seen :
      (k : Kind) (id : String) (db : Db) (row : Row)
      → find h scope k id db ≡ some row
      → (get id (table_of k db) ≡ some row) × (is_seen h scope k row ≡ true)
  unfolding find
  find-seen k id db row e = ground (arith, e)

  pub add_tombstone-table :
      (k : Kind) (id entity_type : String) (seq : ℕ) (db : Db)
      → table_of k (add_tombstone h scope id entity_type seq db) ≡ table_of k db
  unfolding add_tombstone
  add_tombstone-table device id entity_type seq db = ground arith
  add_tombstone-table site id entity_type seq db = ground arith
  add_tombstone-table group id entity_type seq db = ground arith
  add_tombstone-table user id entity_type seq db = ground arith
