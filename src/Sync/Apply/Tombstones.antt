-- ===== src/Sync/Apply/Tombstones.antt =====
-- A deleted entity stays deleted.
use rebooter_droids.Base.{
  ℕ, String, Bool, true, false, none, some, ◌≡◌, ◌≢◌, ◌⊎◌, inl, inr, arith, eq_iff, Option-cases,
  subst, sym, ap, ◌∙◌,
}
use rebooter_droids.Base.Json.{str}
use rebooter_droids.Base.Result.{ok}
use rebooter_droids.Base.Table.{get, put, remove, get-put}
use rebooter_droids.Base.Table.Keyed.{IsKeyed, put-IsKeyed, remove-IsKeyed}
use rebooter_droids.Tenancy.{Scope, system, is_visible, add_tenant_filter, passes}
use rebooter_droids.Sync.Types.{plain, Row, Kind, Event, Db, table_of, kind_of}
use rebooter_droids.Sync.Values.{incoming_of}
use rebooter_droids.Sync.Session.{Host, is_seen, find}
use rebooter_droids.Sync.Apply.{
  is_tombstoned, add_tombstone, apply_scoped, apply_outbox_event, event_org_id, deleted_id,
  delete_entity, delete_row, seq_or_zero,
}
use rebooter_droids.Sync.Apply.Preserve.{
  Keeps, Ensures, Ensures-ok, Ensures-if, add_tombstone-table,
}
use rebooter_droids.Sync.Apply.Preserve.Events.{HasKeys, apply_outbox_event-Ensures}
use rebooter_droids.Sync.Tables.{
  AllKeyed, with_table-AllKeyed, with_table-others, same_kind_refl, eq_of_same_kind, get-put_row,
  get-remove_row,
}

-- An entity of a model has a tombstone and no row.
pub record IsDead (k : Kind) (id : String) (db : Db) : Type 0 where
  pub keyed : AllKeyed db
  pub tombstoned : is_tombstoned db id ≡ true
  pub absent : get id (table_of k db) ≡ none

-- The payload's own `id`, where it has one, is that of the event's entity.
abbrev pub IsHonest : Host → Event → Type 0
IsHonest h event =
    (k : Kind)
    → let own = get "id" (incoming_of h.parse (h.columns k) event.payload) in
      (own ≡ none) ⊎ (own ≡ some (plain (str event.entity_id)))

module _ (h : Host) (scope : Scope) (k : Kind) (id : String) where
  add_tombstone-IsDead :
      (i entity_type : String) (seq : ℕ) (db : Db)
      → IsDead k id db
      → IsDead k id (add_tombstone h scope i entity_type seq db)
  unfolding add_tombstone
  add_tombstone-IsDead i entity_type seq db d = record {
    keyed =
        λ j. subst IsKeyed (sym (add_tombstone-table h scope j i entity_type seq db)) (d.keyed j);
    tombstoned = ground (
      arith,
      d.tombstoned,
      eq_iff i id,
      get-put i id (record { entity_type = entity_type; created_at = h.now; from_outbox_seq = seq })
          db.tombstones,
    );
    absent = ap (get id) (add_tombstone-table h scope k i entity_type seq db) ∙ d.absent;
  }

  keeps_dead : Keeps h scope (λ i. i ≢ id) (IsDead k id)
  keeps_dead = record {
    inserted = λ j i row db key fresh d. record {
      keyed =
          with_table-AllKeyed j (put i row (table_of j db)) db
            (put-IsKeyed i row (table_of j db) (d.keyed j)) d.keyed;
      tombstoned = ground (arith, with_table-others j (put i row (table_of j db)) db, d.tombstoned);
      absent =
          ground
            (arith, get-put_row k j id i row db, eq_iff i id, d.absent, key, eq_of_same_kind j k);
    };
    changed = λ j i row old db there seen d. record {
      keyed =
          with_table-AllKeyed j (put i row (table_of j db)) db
            (put-IsKeyed i row (table_of j db) (d.keyed j)) d.keyed;
      tombstoned = ground (arith, with_table-others j (put i row (table_of j db)) db, d.tombstoned);
      absent =
          ground
            (arith, get-put_row k j id i row db, eq_iff i id, d.absent, there, eq_of_same_kind j k);
    };
    removed = λ j i old db there seen d. record {
      keyed =
          with_table-AllKeyed j (remove i (table_of j db)) db
            (remove-IsKeyed i (table_of j db) (d.keyed j)) d.keyed;
      tombstoned = ground (arith, with_table-others j (remove i (table_of j db)) db, d.tombstoned);
      absent = ground (arith, get-remove_row k j id i db, d.absent, eq_of_same_kind j k);
    };
    keyed = λ j db d. d.keyed j;
    marked = λ i entity_type seq db d. add_tombstone-IsDead i entity_type seq db d;
  }

  own_id :
      (event : Event) (db : Db)
      → IsHonest h event
      → h.minted_id ≢ id
      → is_tombstoned db id ≡ true
      → is_tombstoned db event.entity_id ≡ false
      → HasKeys h scope (λ i. i ≢ id) (IsDead k id) keeps_dead event
  own_id event db honest fresh dead live = record {
    minted = fresh;
    own = λ j i e same. ground (arith, honest j, dead, live, e, same);
  }

module _ (h : Host) (outer : Scope) (k : Kind) (id : String) where
  -- Once an entity has a tombstone and no row, an event whose payload does not name another id
  -- than its own entity brings no row back under its id, whatever its type and whoever claims it.
  pub apply-IsDead :
      (event : Event) (db db' : Db) (applied : Bool)
      → IsHonest h event
      → h.minted_id ≢ id
      → IsDead k id db
      → apply_outbox_event h outer event db ≡ ok (applied, db')
      → IsDead k id db'
  apply-IsDead event db db' applied honest fresh d e =
      Ensures-ok (λ (out : Bool × Db). IsDead k id out.1) (apply_outbox_event h outer event db)
        (applied, db') e
        (apply_outbox_event-Ensures h outer (λ i. i ≢ id) (IsDead k id)
          (λ scope. keeps_dead h scope k id) event db
          (λ live scope. own_id h scope k id event db honest fresh d.tombstoned live) d)

-- The scope of an event without a claim.
abbrev system_scope : Scope
system_scope = record { current_org = none; bypass = true }

all_seen : (h : Host) (k : Kind) (row : Row) → is_seen h system_scope k row ≡ true
unfolding is_visible add_tenant_filter passes
all_seen h k row = ground arith

module _ (h : Host) (k : Kind) (id entity_type : String) (seq : ℕ) (db : Db)
    (keyed : AllKeyed db) where
  marked_db : Db
  marked_db = add_tombstone h system_scope id entity_type seq db

  marked_db-tombstoned : is_tombstoned marked_db id ≡ true
  unfolding marked_db add_tombstone
  marked_db-tombstoned = ground (
    arith,
    eq_iff id id,
    get-put id id (record { entity_type = entity_type; created_at = h.now; from_outbox_seq = seq })
        db.tombstones,
  )

  marked_db-AllKeyed : AllKeyed marked_db
  unfolding marked_db
  marked_db-AllKeyed j =
      subst IsKeyed (sym (add_tombstone-table h system_scope j id entity_type seq db)) (keyed j)

  marked-IsDead : get id (table_of k db) ≡ none → IsDead k id marked_db
  unfolding marked_db
  marked-IsDead gone = record {
    keyed = marked_db-AllKeyed;
    tombstoned = marked_db-tombstoned;
    absent = ap (get id) (add_tombstone-table h system_scope k id entity_type seq db) ∙ gone;
  }

  removed-IsDead : (row : Row) → IsDead k id (delete_row k id (some row) marked_db)
  removed-IsDead row =
      let t = remove id (table_of k marked_db) in
      record {
        keyed =
            with_table-AllKeyed k t marked_db
              (remove-IsKeyed id (table_of k marked_db) (marked_db-AllKeyed k)) marked_db-AllKeyed;
        tombstoned = ground (arith, with_table-others k t marked_db, marked_db-tombstoned);
        absent = ground (arith, get-remove_row k k id id marked_db, eq_iff id id, same_kind_refl k);
      }

delete_entity-IsDead :
    (h : Host) (k : Kind) (event : Event) (id : String) (db : Db)
    → AllKeyed db
    → Ensures (λ (out : Bool × Db). IsDead k id out.1) (delete_entity h system_scope k event id db)
unfolding delete_entity find marked_db
delete_entity-IsDead h k event id db keyed =
    let seq = seq_or_zero event.seq in
    let marked = add_tombstone h system_scope id event.entity_type seq db in
    elim (Option-cases (get id (table_of k db))) [
      | inl gone ↦ rw gone (
          Ensures-if (λ (out : Bool × Db). IsDead k id out.1) (h.accepts marked) (ok (true, marked))
            (λ fits. marked-IsDead h k id event.entity_type seq db keyed gone))
      | inr (row, here) ↦ rw here (
          rw (all_seen h k row) (
            Ensures-if (λ (out : Bool × Db). IsDead k id out.1)
              (h.accepts (delete_row k id (some row) marked))
              (ok (true, delete_row k id (some row) marked))
              (λ fits. removed-IsDead h k id event.entity_type seq db keyed row)))
    ]

-- A delete event without a claim, once it is applied, leaves its entity dead.
pub apply_delete-IsDead :
    (h : Host) (outer : Scope) (event : Event) (db db' : Db) (applied : Bool) (k : Kind)
    (id : String)
    → event_org_id event.claim ≡ none
    → kind_of event.entity_type ≡ some k
    → deleted_id event.tombstone_for ≡ some id
    → is_tombstoned db event.entity_id ≡ false
    → AllKeyed db
    → apply_outbox_event h outer event db ≡ ok (applied, db')
    → IsDead k id db'
unfolding apply_outbox_event system apply_scoped delete_entity
apply_delete-IsDead h outer event db db' applied k id unclaimed kind deleted live keyed e =
    let scope : Scope = record { current_org = none; bypass = true } in
    let whole : delete_entity h scope k event id db ≡ ok (applied, db') =
      ground (arith, unclaimed, kind, deleted, live, e) in
    Ensures-ok (λ (out : Bool × Db). IsDead k id out.1) (delete_entity h scope k event id db)
      (applied, db') whole (delete_entity-IsDead h k event id db keyed)
