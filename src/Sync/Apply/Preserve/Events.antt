-- ===== src/Sync/Apply/Preserve/Events.antt =====
-- The branches of an apply, and an apply as a whole.
use rebooter_droids.Base.{
  String, Bool, true, false, not, ◌&&◌, ◌||◌, Option, none, some, [], ◌∷◌, ◌≡◌, inl, inr, refl,
  arith, Bool-cases, Option-cases, is_some, ◌∙◌, ap,
}
use rebooter_droids.Base.Json.{str}
use rebooter_droids.Base.Result.{ok, Result-cases}
use rebooter_droids.Base.Table.{get, get-put}
use rebooter_droids.Tenancy.{Scope, system, org_context}
use rebooter_droids.Sync.Types.{plain, Row, Kind, kind_of, natural_key, has_site, Event, Db}
use rebooter_droids.Sync.Values.{text_of, is_true, as_utc, incoming_of}
use rebooter_droids.Sync.Session.{
  Host, SyncError, wrong_type, or_else, find, resolve_default_site_id,
}
use rebooter_droids.Sync.Apply.{
  pinned, seq_or_zero, deleted_id, id_or, add_tombstone, delete_row, delete_entity, remap_found,
  is_site, remap_site, by_natural_key, with_id, updated_value, upsert_pinned, upsert_incoming,
  upsert, apply_to, apply_scoped, apply_for, apply_outbox_event, event_org_id, value_or_null,
  is_tombstoned,
}
use rebooter_droids.Sync.Apply.Preserve.{
  Ensures, Ensures-ok, Ensures-if, Keeps, find-seen, add_tombstone-table,
}
use rebooter_droids.Sync.Apply.Preserve.Writes.{resolve-Ensures, write-Ensures, found-seen}

module _ (h : Host) (scope : Scope) (Key : String → Type 0) (P : Db → Type 0)
    (keeps : Keeps h scope Key P) where
  remap_found-Ensures :
      Key h.minted_id
      → (incoming : Row) (db : Db) (known : Bool) → P db
      → Ensures
          (λ out. (get "id" out.0 ≡ get "id" incoming) × P out.1)
          (remap_found h scope incoming db known)
  remap_found-Ensures key incoming db true p = (refl, p)
  remap_found-Ensures key incoming db false p =
      let m = resolve_default_site_id h scope db in
      elim (Result-cases m) [
        | inl ((id, db'), e) ↦ rw e (
          ground (arith, get-put "site_id" "id" (plain (str id)) incoming),
          Ensures-ok (λ out. P out.1) m (id, db') e (resolve-Ensures h scope Key P keeps key db p),
        )
        | inr (x, e) ↦ rw e tt
      ]

  remap_site-Ensures :
      Key h.minted_id
      → (k : Kind) (incoming : Row) (db : Db) → P db
      → Ensures
          (λ out. (get "id" out.0 ≡ get "id" incoming) × P out.1)
          (remap_site h scope k incoming db)
  unfolding remap_site
  remap_site-Ensures key k incoming db p =
      let value = get "site_id" incoming in
      remap_found-Ensures key incoming db
        (not (has_site k && is_true (value_or_null value)) || is_site h scope db (text_of value)) p

  upsert_pinned-Ensures :
      (k : Kind) (event : Event) (incoming : Row) (db : Db)
      → Key h.minted_id
      → ((id : String) → id_or event.entity_id (get "id" incoming) ≡ some id → Key id)
      → P db
      → Ensures (λ out. P out.1) (upsert_pinned h scope k event incoming db)
  unfolding upsert_pinned
  upsert_pinned-Ensures k event incoming db key keys p =
      let m = remap_site h scope k incoming db in
      elim (Result-cases m) [
        | inr (x, e) ↦ rw e tt
        | inl ((remapped, db'), e) ↦
            let (same, p') =
              Ensures-ok (λ out. (get "id" out.0 ≡ get "id" incoming) × P out.1) m (remapped, db') e
                (remap_site-Ensures key k incoming db p) in
            elim (Result-cases (as_utc {E = SyncError} wrong_type (updated_value h scope event))) [
              | inr (x, e') ↦ rw e (rw e' tt)
              | inl (updated, e') ↦ rw e (
                  rw e' (
                    write-Ensures h scope Key P keeps k event remapped updated db'
                      (or_else (with_id event.entity_id (find h scope k event.entity_id db'))
                        (by_natural_key h scope k (natural_key k) remapped db'))
                      (λ id i. keys id (rw same at i))
                      (λ id row f.
                        found-seen h scope Key P keeps k event.entity_id remapped db' id row f p')
                      p'))
            ]
      ]

  pinned-id :
      (o : Option String) (k : Kind) (incoming : Row)
      → get "id" (pinned o k incoming) ≡ get "id" incoming
  pinned-id none k incoming = refl
  pinned-id (some org) k incoming =
      ground (arith, get-put "organization_id" "id" (plain (str org)) incoming)

  upsert_incoming-Ensures :
      (o : Option String) (k : Kind) (event : Event) (incoming : Row) (db : Db)
      → Key h.minted_id
      → ((id : String) → id_or event.entity_id (get "id" incoming) ≡ some id → Key id)
      → P db
      → Ensures (λ out. P out.1) (upsert_incoming h scope o k event incoming db)
  upsert_incoming-Ensures o k event [] db key keys p = p
  upsert_incoming-Ensures o k event (entry ∷ rest) db key keys p =
      upsert_pinned-Ensures k event (pinned o k (entry ∷ rest)) db key
        (λ id i. keys id (rw (pinned-id o k (entry ∷ rest)) at i)) p

  delete_entity-Ensures :
      (k : Kind) (event : Event) (id : String) (db : Db)
      → P db
      → Ensures (λ out. P out.1) (delete_entity h scope k event id db)
  unfolding delete_entity
  delete_entity-Ensures k event id db p = elim (Option-cases (find h scope k id db)) [
    | inl gone ↦
        let marked = add_tombstone h scope id event.entity_type (seq_or_zero event.seq) db in
        rw gone (
          Ensures-if (λ (out : Bool × Db). P out.1) (h.accepts marked) (ok (true, marked))
            (λ fits. keeps.marked id event.entity_type (seq_or_zero event.seq) db p))
    | inr (row, there) ↦
        let marked = add_tombstone h scope id event.entity_type (seq_or_zero event.seq) db in
        let (here, seen) = find-seen h scope k id db row there in
        let after = delete_row k id (some row) marked in
        rw there (
          Ensures-if (λ (out : Bool × Db). P out.1) (h.accepts after) (ok (true, after))
            (λ fits.
              keeps.removed k id row marked
                (ap (get id)
                    (add_tombstone-table h scope k id event.entity_type (seq_or_zero event.seq) db)
                  ∙ here)
                seen (keeps.marked id event.entity_type (seq_or_zero event.seq) db p)))
  ]

  -- The ids of a new row's own, and of the site that a remap creates, are keys.
  pub record HasKeys (event : Event) : Type 0 where
    pub minted : Key h.minted_id
    pub own :
        (k : Kind) (id : String)
        → id_or event.entity_id (get "id" (incoming_of h.parse (h.columns k) event.payload))
          ≡ some id
        → Key id

  apply_to-Ensures :
      (o : Option String) (event : Event) (db : Db) (k : Option Kind) (deleted : Option String)
      → HasKeys event
      → P db
      → Ensures (λ out. P out.1) (apply_to h scope o event db k deleted)
  unfolding upsert
  apply_to-Ensures o event db none deleted keys p = p
  apply_to-Ensures o event db (some k) (some id) keys p = delete_entity-Ensures k event id db p
  apply_to-Ensures o event db (some k) none keys p =
      upsert_incoming-Ensures o k event (incoming_of h.parse (h.columns k) event.payload) db
        keys.minted (keys.own k) p

  -- An apply keeps what each of its writes keeps. The keys are asked only where the event's
  -- entity has no tombstone.
  pub apply_scoped-Ensures :
      (o : Option String) (event : Event) (db : Db)
      → (is_tombstoned db event.entity_id ≡ false → HasKeys event)
      → P db
      → Ensures (λ out. P out.1) (apply_scoped h scope o event db)
  unfolding apply_scoped
  apply_scoped-Ensures o event db keys p = elim (Bool-cases (is_tombstoned db event.entity_id)) [
    | inl gone ↦ rw gone p
    | inr live ↦ rw live (
        apply_to-Ensures o event db (kind_of event.entity_type) (deleted_id event.tombstone_for)
          (keys live) p)
  ]

module _ (h : Host) (outer : Scope) (Key : String → Type 0) (P : Db → Type 0)
    (keeps : (scope : Scope) → Keeps h scope Key P) where
  apply_for-Ensures :
      (event : Event) (db : Db) (claim : Option String)
      → (is_tombstoned db event.entity_id ≡ false
          → (scope : Scope) → HasKeys h scope Key P (keeps scope) event)
      → P db
      → Ensures (λ (out : Bool × Db). P out.1) (apply_for h outer event db claim)
  unfolding system org_context
  apply_for-Ensures event db none keys p =
      let scope : Scope = record { current_org = none; bypass = true } in
      apply_scoped-Ensures h scope Key P (keeps scope) none event db (λ live. keys live scope) p
  apply_for-Ensures event db (some org) keys p =
      let scope : Scope = record { current_org = some org; bypass = false } in
      elim (Bool-cases (is_some (get org db.organizations))) [
        | inl known ↦ rw known (
            apply_scoped-Ensures h scope Key P (keeps scope) (some org) event db
              (λ live. keys live scope) p)
        | inr unknown ↦ rw unknown tt
      ]

  -- What the writes of an apply keep in every scope, an event keeps.
  pub apply_outbox_event-Ensures :
      (event : Event) (db : Db)
      → (is_tombstoned db event.entity_id ≡ false
          → (scope : Scope) → HasKeys h scope Key P (keeps scope) event)
      → P db
      → Ensures (λ (out : Bool × Db). P out.1) (apply_outbox_event h outer event db)
  unfolding apply_outbox_event
  apply_outbox_event-Ensures event db keys p =
      apply_for-Ensures event db (event_org_id event.claim) keys p
