-- ===== src/Sync/Tables.antt =====
-- The four tables of the syncable models, as the proofs about app/services/sync.py use them.
use rebooter_droids.Base.{
  String, Bool, true, false, none, some, ◌≡◌, ◌==◌, refl, arith, if◌then◌else◌, Bool-cases, inl,
  inr, subst, sym,
}
use rebooter_droids.Base.Table.{Table, get, put, remove, get-put, get-remove}
use rebooter_droids.Base.Table.Keyed.{IsKeyed}
use rebooter_droids.Sync.Types.{Row, Kind, device, site, group, user, Db, table_of, with_table}

abbrev pub same_kind : Kind → Kind → Bool
same_kind device device = true
same_kind site site = true
same_kind group group = true
same_kind user user = true
same_kind _ _ = false

pub table_of-with_table :
    (k j : Kind) (t : Table Row) (db : Db)
    → table_of k (with_table j t db) ≡ (if same_kind j k then t else table_of k db)
table_of-with_table device device t db = refl
table_of-with_table device site t db = refl
table_of-with_table device group t db = refl
table_of-with_table device user t db = refl
table_of-with_table site device t db = refl
table_of-with_table site site t db = refl
table_of-with_table site group t db = refl
table_of-with_table site user t db = refl
table_of-with_table group device t db = refl
table_of-with_table group site t db = refl
table_of-with_table group group t db = refl
table_of-with_table group user t db = refl
table_of-with_table user device t db = refl
table_of-with_table user site t db = refl
table_of-with_table user group t db = refl
table_of-with_table user user t db = refl

pub eq_of_same_kind : (j k : Kind) → same_kind j k ≡ true → j ≡ k
eq_of_same_kind device device e = refl
eq_of_same_kind site site e = refl
eq_of_same_kind group group e = refl
eq_of_same_kind user user e = refl
eq_of_same_kind device site e = cc
eq_of_same_kind device group e = cc
eq_of_same_kind device user e = cc
eq_of_same_kind site device e = cc
eq_of_same_kind site group e = cc
eq_of_same_kind site user e = cc
eq_of_same_kind group device e = cc
eq_of_same_kind group site e = cc
eq_of_same_kind group user e = cc
eq_of_same_kind user device e = cc
eq_of_same_kind user site e = cc
eq_of_same_kind user group e = cc

pub same_kind_refl : (k : Kind) → same_kind k k ≡ true
same_kind_refl device = refl
same_kind_refl site = refl
same_kind_refl group = refl
same_kind_refl user = refl

-- A write keeps the tables that are not syncable.
pub with_table-others :
    (j : Kind) (t : Table Row) (db : Db)
    → ((with_table j t db).tombstones ≡ db.tombstones)
      × ((with_table j t db).cursors ≡ db.cursors)
      × ((with_table j t db).organizations ≡ db.organizations)
with_table-others device t db = (refl, refl, refl)
with_table-others site t db = (refl, refl, refl)
with_table-others group t db = (refl, refl, refl)
with_table-others user t db = (refl, refl, refl)

-- The ids of each table are distinct.
abbrev pub AllKeyed : Db → Type 0
AllKeyed db = (k : Kind) → IsKeyed (table_of k db)

pub with_table-AllKeyed :
    (j : Kind) (t : Table Row) (db : Db) → IsKeyed t → AllKeyed db → AllKeyed (with_table j t db)
with_table-AllKeyed j t db h all k = elim (Bool-cases (same_kind j k)) [
  | inl same ↦ subst IsKeyed (sym (ground (arith, table_of-with_table k j t db, same))) h
  | inr other ↦ subst IsKeyed (sym (ground (arith, table_of-with_table k j t db, other))) (all k)
]

-- A lookup after a row was written, and after one was deleted.
pub get-put_row :
    (k j : Kind) (i id : String) (row : Row) (db : Db)
    → get i (table_of k (with_table j (put id row (table_of j db)) db)) ≡ (
        if same_kind j k
        then if id == i then some row else get i (table_of j db)
        else get i (table_of k db))
get-put_row k j i id row db = ground (
  arith,
  table_of-with_table k j (put id row (table_of j db)) db,
  get-put id i row (table_of j db),
)

pub get-remove_row :
    (k j : Kind) (i id : String) (db : Db)
    → get i (table_of k (with_table j (remove id (table_of j db)) db)) ≡ (
        if same_kind j k
        then if id == i then none else get i (table_of j db)
        else get i (table_of k db))
get-remove_row k j i id db =
    ground (
      arith,
      table_of-with_table k j (remove id (table_of j db)) db,
      get-remove id i (table_of j db),
    )
