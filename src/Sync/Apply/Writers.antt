-- ===== src/Sync/Apply/Writers.antt =====
-- Which writer wins.
use rebooter_droids.Base.{
  ℕ, max, String, Bool, true, false, Option, none, some, List, [], ◌∷◌, ◌==◌, ◌≡◌, inl, inr, refl,
  arith, eq_iff, leb, if◌then◌else◌, Bool-cases, sym, ◌∙◌, ap, subst, ◌⊎◌, ◌<◌, ◌≤◌,
}
use rebooter_droids.Base.Json.{str}
use rebooter_droids.Base.Result.{ok, Result-cases}
use rebooter_droids.Base.Table.{get, put, get-put}
use rebooter_droids.Base.Table.Keyed.{IsKeyed}
use rebooter_droids.Tenancy.{Scope, Object, Action, before_flush, guard_one, guard_all, guard_each}
use rebooter_droids.Sync.Types.{Value, plain, datetime, Stamp, Row, Kind, Db, table_of, with_table}
use rebooter_droids.Sync.Values.{as_utc, set_all, instant}
use rebooter_droids.Sync.Session.{Host, store, object_of, flushed_row, with_org}
use rebooter_droids.Sync.Apply.{overwrite, overwrite_newer}
use rebooter_droids.Sync.Tables.{get-put_row, same_kind_refl}

-- The instant of a row's `updated_at`.
abbrev pub stamp_of : Option Value → Option ℕ
stamp_of (some (datetime stamp)) = some (instant stamp)
stamp_of _ = none

get-set_all_other :
    (name : String) (incoming row : Row)
    → get name incoming ≡ none
    → get name (set_all incoming row) ≡ get name row
unfolding set_all get
get-set_all_other name [] row e = refl
get-set_all_other name ((n, v) ∷ rest) row e = elim (Bool-cases (n == "id")) [
  | inl is_id ↦ rw is_id (get-set_all_other name rest row (ground (arith, e)))
  | inr other ↦ rw other (
      get-set_all_other name rest (put n v row) (ground (arith, e))
      ∙ ground (arith, e, get-put n name v row))
]

get-set_all :
    (name : String) (value : Value) (incoming row : Row)
    → (name == "id") ≡ false
    → IsKeyed incoming
    → get name incoming ≡ some value
    → get name (set_all incoming row) ≡ some value
unfolding set_all get
get-set_all name value [] row column u e = cc
get-set_all name value ((n, v) ∷ rest) row column (fresh, u) e = elim (Bool-cases (n == name)) [
  | inl same ↦
      let other : (n == "id") ≡ false = ground (arith, eq_iff n name, same, column) in
      rw other (
        get-set_all_other name rest (put n v row) (ground (arith, fresh, eq_iff n name, same))
        ∙ ground (arith, e, same, get-put n name v row))
  | inr differs ↦
      get-set_all name value rest (if n == "id" then row else put n v row) column u
        (ground (arith, e, differs))
]

get-with_org :
    (name : String) (o : Option String) (row : Row)
    → ("organization_id" == name) ≡ false
    → get name (with_org o row) ≡ get name row
get-with_org name none row other = refl
get-with_org name (some org) row other =
    ground (arith, other, get-put "organization_id" name (plain (str org)) row)

guard_each-row :
    (active : Option String) (enforcing : Bool) (obj obj' : Object Row) (actions : List Action)
    → guard_each active enforcing obj ≡ ok (obj', actions)
    → obj'.row ≡ obj.row
unfolding guard_each guard_one
guard_each-row active enforcing obj obj' actions e = ground (arith, e)

get-flushed_row :
    (name : String) (h : Host) (scope : Scope) (k : Kind) (row row' : Row)
    → ("organization_id" == name) ≡ false
    → flushed_row (before_flush scope h.enforcing (object_of k row ∷ [])) ≡ ok row'
    → get name row' ≡ get name row
unfolding before_flush guard_all
get-flushed_row name h scope k row row' other e = elim (Bool-cases scope.bypass) [
  | inl bypassed ↦
      let obj = object_of k row in
      let same : with_org obj.organization_id row ≡ row' = ground (arith, bypassed, e) in
      ap (get name) (sym same) ∙ get-with_org name obj.organization_id row other
  | inr guarded ↦ elim (Result-cases (guard_each scope.current_org h.enforcing (object_of k row))) [
    | inl ((obj, actions), passed) ↦
        let same : with_org obj.organization_id obj.row ≡ row' =
          ground (arith, guarded, passed, e) in
        ap (get name) (sym same)
        ∙ get-with_org name obj.organization_id obj.row other
        ∙ ap (get name)
            (guard_each-row scope.current_org h.enforcing (object_of k row) obj actions passed)
    | inr (x, stopped) ↦ ground (arith, guarded, stopped, e)
  ]
]

-- The row that a store leaves under its id.
stored_row :
    (h : Host) (scope : Scope) (k : Kind) (id : String) (row : Row) (db db' : Db)
    → store h scope k id row db ≡ ok db'
    → (row' : Row) × (get id (table_of k db') ≡ some row')
      × ((name : String) → ("organization_id" == name) ≡ false → get name row' ≡ get name row)
unfolding store
stored_row h scope k id row db db' e =
    elim (Result-cases (flushed_row (before_flush scope h.enforcing (object_of k row ∷ [])))) [
      | inl (row', flushed) ↦
          let after = with_table k (put id row' (table_of k db)) db in
          let same : after ≡ db' = ground (arith, flushed, e) in
          (
            row',
            ground (arith, same, get-put_row k k id id row' db, same_kind_refl k, eq_iff id id),
            λ name other. get-flushed_row name h scope k row row' other flushed,
          )
      | inr (x, stopped) ↦ absurd (ground (arith, stopped, e))
    ]

-- What an applied write has made of a row: each column that it names has its value, each other
-- column the old row's, the primary key and the organization aside.
pub record Overwritten (incoming row row' : Row) : Type 0 where
  pub named :
      (name : String) (value : Value)
      → (name == "id") ≡ false
      → ("organization_id" == name) ≡ false
      → get name incoming ≡ some value
      → get name row' ≡ some value
  pub kept :
      (name : String)
      → ("organization_id" == name) ≡ false
      → get name incoming ≡ none
      → get name row' ≡ get name row

-- A stale write changes nothing; any other leaves the row overwritten.
pub record Outcome (h : Host) (scope : Scope) (k : Kind) (id : String) (incoming row : Row)
    (old new : ℕ) (db db' : Db) (applied : Bool) : Type 0 where
  pub after : Row
  pub here : get id (table_of k db') ≡ some after
  pub latest : stamp_of (get "updated_at" after) ≡ some (max old new)
  pub effect :
      ((old < new) × ((applied ≡ true) × Overwritten incoming row after))
      ⊎ ((new ≤ old) × ((applied ≡ false) × (db' ≡ db)))
  pub again : overwrite h scope k incoming (some new) (id, after) db' ≡ ok (false, db')

stale-overwrite :
    (h : Host) (scope : Scope) (k : Kind) (id : String) (incoming row : Row) (old new : ℕ) (db : Db)
    → stamp_of (get "updated_at" row) ≡ some old
    → new ≤ old
    → overwrite h scope k incoming (some new) (id, row) db ≡ ok (false, db)
unfolding overwrite as_utc
stale-overwrite h scope k id incoming row old new db e le = go (get "updated_at" row) refl e
  where
    go :
        (v : Option Value)
        → get "updated_at" row ≡ v
        → stamp_of v ≡ some old
        → overwrite h scope k incoming (some new) (id, row) db ≡ ok (false, db)
    go none same s = absurd (ground (arith, s))
    go (some (plain x)) same s = absurd (ground (arith, s))
    go (some (datetime stamp)) same s =
        let stale : leb new (instant stamp) ≡ true = ground (arith, s, le) in rw (same, stale) refl

-- A write to a row that is there, where both are dated, no column is named twice and the call
-- returns, leaves the row with the later of the two instants. It is applied exactly when its own is
-- strictly later: then each column that it names has its value and each other column the old row's,
-- the primary key and the organization aside. Else the tables are as they were. The same write on
-- the row that it leaves is not applied and changes nothing.
pub overwrite-latest :
    (h : Host) (scope : Scope) (k : Kind) (id : String) (incoming row : Row) (old new : Stamp)
    (db db' : Db) (applied : Bool)
    → get "updated_at" row ≡ some (datetime old)
    → get "updated_at" incoming ≡ some (datetime new)
    → IsKeyed incoming
    → get id (table_of k db) ≡ some row
    → overwrite h scope k incoming (some (instant new)) (id, row) db ≡ ok (applied, db')
    → Outcome h scope k id incoming row (instant old) (instant new) db db' applied
unfolding overwrite as_utc
overwrite-latest h scope k id incoming row old new db db' applied e_old e_new u here e =
    elim (Bool-cases (leb (instant new) (instant old))) [
      | inl stale ↦
          let le : instant new ≤ instant old = ground (arith, stale) in
          let kept : stamp_of (get "updated_at" row) ≡ some (instant old) = rw e_old refl in
          let unchanged =
            stale-overwrite h scope k id incoming row (instant old) (instant new) db kept le in
          let same : db ≡ db' = ground (arith, unchanged, e) in
          record {
            after = row;
            here = ground (arith, same, here);
            latest = ground (arith, kept, le);
            effect = inr (le, (ground (arith, unchanged, e), sym same));
            again =
                subst
                  (λ d.
                    overwrite h scope k incoming (some (instant new)) (id, row) d ≡ ok (false, d))
                  same unchanged;
          }
      | inr newer ↦ elim (Result-cases (store h scope k id (set_all incoming row) db)) [
        | inl (db1, stored) ↦
            let result : overwrite_newer h scope k incoming id row db
                  (leb (instant new) (instant old))
                ≡ ok (applied, db') =
              rw e_old at e in
            let same : db1 ≡ db' = ground (arith, stored, newer, result) in
            let was_applied : applied ≡ true = ground (arith, stored, newer, result) in
            let (after, found, columns) =
              stored_row h scope k id (set_all incoming row) db db1 stored in
            let dated =
              columns "updated_at" refl
              ∙ get-set_all "updated_at" (datetime new) incoming row refl u e_new in
            let stamped : stamp_of (get "updated_at" after) ≡ some (instant new) = rw dated refl in
            let lt : instant old < instant new = ground (arith, newer) in
            record {
              after = after;
              here = subst (λ d. get id (table_of k d) ≡ some after) same found;
              latest = ground (arith, stamped, lt);
              effect = inl (
                lt,
                (
                  was_applied,
                  record {
                    named = λ name value column other f.
                        columns name other ∙ get-set_all name value incoming row column u f;
                    kept = λ name other missing.
                        columns name other ∙ get-set_all_other name incoming row missing;
                  },
                ),
              );
              again =
                  stale-overwrite h scope k id incoming after (instant new) (instant new) db'
                    stamped (omega arith);
            }
        | inr (x, stopped) ↦ absurd (ground (arith, stopped, newer, rw e_old at e))
      ]
    ]
