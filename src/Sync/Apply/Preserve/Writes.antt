-- ===== src/Sync/Apply/Preserve/Writes.antt =====
-- The lookups, and the rows that an apply adds and changes.
use rebooter_droids.Base.{
  ℕ, String, Bool, true, false, not, Option, none, some, ◌∷◌, ◌≡◌, inl, inr, refl, arith,
  Option-cases, is_some, select,
}
use rebooter_droids.Base.Json.{str}
use rebooter_droids.Base.Result.{Result-cases}
use rebooter_droids.Base.Table.{get, remove}
use rebooter_droids.Base.Table.Keyed.{get_of_In}
use rebooter_droids.Tenancy.{Scope}
use rebooter_droids.Sync.Types.{plain, Row, Kind, natural_key, Event, Db, table_of, site}
use rebooter_droids.Sync.Values.{text_of, as_utc, set_all}
use rebooter_droids.Sync.Session.{
  Host, SyncError, wrong_type, with_defaults, first_with, or_else, store, insert, is_seen, find,
  seen_rows, only_id, default_site, resolve_default_site_id, resolve_default_org_id,
}
use rebooter_droids.Sync.Apply.{
  is_stale, id_or, by_natural_key, create, overwrite, overwrite_newer, with_id, write,
  value_or_null,
}
use rebooter_droids.Sync.Apply.Preserve.{
  Ensures, Ensures-ok, Ensures-if, Keeps, store-Ensures, find-seen, first_with-In, In-select,
}

module _ (h : Host) (scope : Scope) (Key : String → Type 0) (P : Db → Type 0)
    (keeps : Keeps h scope Key P) where
  insert-Ensures :
      (k : Kind) (id : String) (row : Row) (db : Db)
      → Key id
      → P db
      → Ensures P (insert h scope k id row db)
  unfolding insert
  insert-Ensures k id row db key p =
      Ensures-if P (not (is_some (get id (table_of k db)))) (store h scope k id row db) (λ fresh.
        store-Ensures h scope P k id row db
          (λ row'. keeps.inserted k id row' db key (ground (arith, fresh)) p))

  create-Ensures :
      (k : Kind) (incoming : Row) (db : Db) (o : Option String)
      → ((id : String) → o ≡ some id → Key id)
      → P db
      → Ensures (λ out. P out.1) (create h scope k incoming db o)
  create-Ensures k incoming db none keys p = tt
  create-Ensures k incoming db (some id) keys p =
      let row = with_defaults (h.defaults k) (remove "id" incoming) in
      elim (Result-cases (insert h scope k id row db)) [
        | inl (db', e) ↦ rw e (
            Ensures-ok P (insert h scope k id row db) db' e
              (insert-Ensures k id row db (keys id refl) p))
        | inr (x, e) ↦ rw e tt
      ]

  overwrite_newer-Ensures :
      (k : Kind) (incoming : Row) (id : String) (row : Row) (db : Db) (stale : Bool)
      → get id (table_of k db) ≡ some row
      → is_seen h scope k row ≡ true
      → P db
      → Ensures (λ out. P out.1) (overwrite_newer h scope k incoming id row db stale)
  overwrite_newer-Ensures k incoming id row db true here seen p = p
  overwrite_newer-Ensures k incoming id row db false here seen p =
      let m = store h scope k id (set_all incoming row) db in
      elim (Result-cases m) [
        | inl (db', e) ↦ rw e (
            Ensures-ok P m db' e (
              store-Ensures h scope P k id (set_all incoming row) db
                (λ row'. keeps.changed k id row' row db here seen p)))
        | inr (x, e) ↦ rw e tt
      ]

  overwrite-Ensures :
      (k : Kind) (incoming : Row) (updated : Option ℕ) (id : String) (row : Row) (db : Db)
      → get id (table_of k db) ≡ some row
      → is_seen h scope k row ≡ true
      → P db
      → Ensures (λ out. P out.1) (overwrite h scope k incoming updated (id, row) db)
  unfolding overwrite
  overwrite-Ensures k incoming updated id row db here seen p =
      elim (Result-cases
        (as_utc {E = SyncError} wrong_type (value_or_null (get "updated_at" row)))) [
          | inl (existing, e) ↦
              rw e (
                overwrite_newer-Ensures k incoming id row db (is_stale updated existing) here seen
                  p)
          | inr (x, e) ↦ rw e tt
        ]

  default_site-Ensures :
      Key h.minted_id
      → (db : Db) (found : Option (String × Row)) (only : Option String) → P db
      → Ensures (λ out. P out.1) (default_site h scope found only db)
  default_site-Ensures key db (some (id, row)) only p = p
  default_site-Ensures key db none (some id) p = p
  default_site-Ensures key db none none p = elim (Option-cases (resolve_default_org_id db)) [
    | inl nobody ↦ rw nobody tt
    | inr (org, e) ↦
        let row : Row =
          ("name", plain (str "Default"))
          ∷ ("organization_id", plain (str org))
          ∷ h.defaults site in
        let m = insert h scope site h.minted_id row db in
        elim (Result-cases m) [
          | inl (db', e') ↦
              rw e (rw e' (Ensures-ok P m db' e' (insert-Ensures site h.minted_id row db key p)))
          | inr (x, e') ↦ rw e (rw e' tt)
        ]
  ]

  pub resolve-Ensures :
      Key h.minted_id
      → (db : Db) → P db
      → Ensures (λ out. P out.1) (resolve_default_site_id h scope db)
  unfolding resolve_default_site_id
  resolve-Ensures key db p =
      let sites = seen_rows h scope site db in
      default_site-Ensures key db (first_with "name" "Default" sites) (only_id sites) p

  pub write-Ensures :
      (k : Kind) (event : Event) (incoming : Row) (updated : Option ℕ) (db : Db)
      (found : Option (String × Row))
      → ((id : String) → id_or event.entity_id (get "id" incoming) ≡ some id → Key id)
      → ((id : String) (row : Row)
          → found ≡ some (id, row)
          → (get id (table_of k db) ≡ some row) × (is_seen h scope k row ≡ true))
      → P db
      → Ensures (λ out. P out.1) (write h scope k event incoming updated db found)
  write-Ensures k event incoming updated db none keys seen p =
      create-Ensures k incoming db (id_or event.entity_id (get "id" incoming)) keys p
  write-Ensures k event incoming updated db (some (id, row)) keys seen p =
      let (here, visible) = seen id row refl in
      overwrite-Ensures k incoming updated id row db here visible p

  first_with-seen :
      (k : Kind) (name text id : String) (row : Row) (db : Db)
      → first_with name text (seen_rows h scope k db) ≡ some (id, row)
      → P db
      → (get id (table_of k db) ≡ some row) × (is_seen h scope k row ≡ true)
  unfolding seen_rows
  first_with-seen k name text id row db e p =
      let i =
        first_with-In name text id row (select (λ entry. is_seen h scope k entry.1) (table_of k db))
          e in
      let (within, seen) =
        In-select (λ entry. is_seen h scope k entry.1) (id, row) (table_of k db) i in
      (get_of_In id row (table_of k db) (keeps.keyed k db p) within, seen)

  by_natural_key-seen :
      (k : Kind) (incoming : Row) (db : Db) (id : String) (row : Row) (name : Option String)
      → by_natural_key h scope k name incoming db ≡ some (id, row)
      → P db
      → (get id (table_of k db) ≡ some row) × (is_seen h scope k row ≡ true)
  by_natural_key-seen k incoming db id row none e p = cc
  by_natural_key-seen k incoming db id row (some name) e p =
      elim (Option-cases (text_of (get name incoming))) [
        | inl missing ↦ cc (rw missing at e)
        | inr (text, there) ↦ first_with-seen k name text id row db (rw there at e) p
      ]

  pub found-seen :
      (k : Kind) (entity_id : String) (incoming : Row) (db : Db) (id : String) (row : Row)
      → or_else
          (with_id entity_id (find h scope k entity_id db))
          (by_natural_key h scope k (natural_key k) incoming db)
        ≡ some (id, row)
      → P db
      → (get id (table_of k db) ≡ some row) × (is_seen h scope k row ≡ true)
  found-seen k entity_id incoming db id row e p =
      elim (Option-cases (find h scope k entity_id db)) [
        | inl missing ↦ by_natural_key-seen k incoming db id row (natural_key k) (rw missing at e) p
        | inr (r, there) ↦ find-seen h scope k id db row (ground (arith, there, rw there at e))
      ]
