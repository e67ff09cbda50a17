-- ===== src/Examples/Sync.antt =====
-- A hub with two orgs, and the events of a peer.
use rebooter_droids.Base.{
  ℕ, String, true, false, Option, none, some, List, [], ◌∷◌, ◌==◌, ◌≡◌, ◌+◌, inl, refl, arith,
  eq_iff, if◌then◌else◌,
}
use rebooter_droids.Base.Json.{str, end, field}
use rebooter_droids.Base.Result.{ok, err}
use rebooter_droids.Base.Table.{get, put, remove}
use rebooter_droids.Tenancy.{
  unset, before_flush, guard_all, guard_each, guard_one, is_visible, add_tenant_filter, passes,
}
use rebooter_droids.Sync.Types.{
  Stamp, aware, plain, datetime, Row, Kind, device, site, group, user, kind_of, Column, Event, Db,
}
use rebooter_droids.Sync.Values.{coerce_datetime, incoming_of, set_all, as_utc}
use rebooter_droids.Sync.Session.{
  Host, store, insert, find, seen_rows, with_defaults, first_with, refused,
}
use rebooter_droids.Sync.Apply.{
  add_tombstone, delete_entity, remap_site, overwrite, upsert, upsert_pinned, apply_scoped,
  apply_outbox_event,
}
use rebooter_droids.Sync.Apply.Tombstones.{IsDead, IsHonest, apply-IsDead, apply_delete-IsDead}
use rebooter_droids.Sync.Apply.Writers.{overwrite-latest, Outcome}
use rebooter_droids.Sync.Tables.{AllKeyed}
use rebooter_droids.Sync.Batch.{Entry, apply_event_batch, get_sync_cursor}
use rebooter_droids.Sync.Batch.Cursors.{batch-progress}

-- The datetimes of the peer are days.
abbrev day_of : String → Option Stamp
day_of s = if s == "monday" then some (aware 1) else if s == "tuesday" then some (aware 2) else none

abbrev site_columns : Kind → List Column
site_columns site =
    record { name = "id"; is_datetime = false }
    ∷ record { name = "name"; is_datetime = false }
    ∷ record { name = "organization_id"; is_datetime = false }
    ∷ record { name = "updated_at"; is_datetime = true }
    ∷ []
site_columns _ = record { name = "id"; is_datetime = false } ∷ []

abbrev host : Host
host = record {
  columns = site_columns;
  defaults = λ k. [];
  parse = day_of;
  minted_id = "site_new";
  now = 50;
  accepts = λ db. true;
  enforcing = true;
}

abbrev site_row : String → String → ℕ → Row
site_row name org at =
    ("name", plain (str name))
    ∷ ("organization_id", plain (str org))
    ∷ ("updated_at", datetime (aware at))
    ∷ []

abbrev db : Db
db = record {
  devices = [];
  sites = ("s1", site_row "home" "a" 1) ∷ ("s2", site_row "office" "b" 1) ∷ [];
  groups = [];
  users = [];
  organizations = ("a", "default") ∷ ("b", "b") ∷ [];
  tombstones = [];
  cursors = [];
}

db-AllKeyed : AllKeyed db
unfolding get
db-AllKeyed device = tt
db-AllKeyed site = (refl, (refl, tt))
db-AllKeyed group = tt
db-AllKeyed user = tt

-- Org `a` renames the site of org `b`.
abbrev hostile : Event
hostile = record {
  seq = some 7;
  at_value = str "tuesday";
  entity_type = "site";
  entity_id = "s2";
  payload = field "name" (str "stolen") (field "organization_id" (str "a") end);
  claim = some (str "a");
  tombstone_for = none;
}

-- The row of the other org is hidden, so the site is new, and its id is taken.
hostile_test : apply_outbox_event host unset hostile db ≡ err refused
unfolding apply_outbox_event apply_scoped upsert upsert_pinned remap_site find seen_rows first_with
    insert get put is_visible add_tenant_filter passes kind_of incoming_of coerce_datetime as_utc
    with_defaults remove
hostile_test = refl

-- A site of its own it may rename.
abbrev rename : Event
rename = record hostile {
  entity_id = "s1";
  payload = field "name" (str "house") (field "updated_at" (str "tuesday") end);
}

abbrev renamed : Db
renamed = record db {
  sites = ("s1", site_row "house" "a" 2) ∷ ("s2", site_row "office" "b" 1) ∷ [];
}

-- The peer deletes the site, and then its old event comes again.
abbrev deletion : Event
deletion = record hostile {
  entity_id = "s1";
  payload = end;
  claim = none;
  tombstone_for = some "s1";
}

abbrev deleted : Db
deleted = record db {
  sites = ("s2", site_row "office" "b" 1) ∷ [];
  tombstones = ("s1", record { entity_type = "site"; created_at = 50; from_outbox_seq = 7 }) ∷ [];
}

deletion_test : apply_outbox_event host unset deletion db ≡ ok (true, deleted)
unfolding apply_outbox_event apply_scoped delete_entity find get put remove kind_of add_tombstone
    is_visible add_tenant_filter passes
deletion_test = refl

rename_again_test : apply_outbox_event host unset rename deleted ≡ ok (false, deleted)
unfolding apply_outbox_event apply_scoped get
rename_again_test = refl

rename-IsHonest : IsHonest host rename
unfolding get incoming_of
rename-IsHonest site = inl refl
rename-IsHonest device = inl refl
rename-IsHonest group = inl refl
rename-IsHonest user = inl refl

apply-IsDead_example : IsDead site "s1" deleted
unfolding get kind_of
apply-IsDead_example =
    apply-IsDead host unset site "s1" rename deleted deleted false rename-IsHonest
      (λ e. ground (arith, e, eq_iff "site_new" "s1"))
      (apply_delete-IsDead host unset deletion db deleted true site "s1" refl refl refl refl
        db-AllKeyed deletion_test)
      rename_again_test

-- An event for another entity, whose payload has the id of the deleted one, brings it back.
abbrev dishonest : Event
dishonest = record hostile {
  entity_id = "s9";
  payload = field "id" (str "s1") (field "name" (str "back") end);
  claim = none;
}

dishonest_test :
    apply_outbox_event host unset dishonest deleted
    ≡ ok (
      true,
      record deleted {
        sites = ("s2", site_row "office" "b" 1) ∷ ("s1", ("name", plain (str "back")) ∷ []) ∷ [];
      },
    )
unfolding apply_outbox_event apply_scoped upsert upsert_pinned remap_site find seen_rows first_with
    store insert get put is_visible add_tenant_filter passes kind_of incoming_of coerce_datetime
    as_utc with_defaults remove before_flush
dishonest_test = refl

abbrev tuesday_write : Row
tuesday_write = ("name", plain (str "house")) ∷ ("updated_at", datetime (aware 2)) ∷ []

overwrite_test :
    overwrite host unset site tuesday_write (some 2) ("s1", site_row "home" "a" 1) db
    ≡ ok (true, renamed)
unfolding overwrite store set_all get put as_utc before_flush guard_all guard_each guard_one
overwrite_test = refl

overwrite-latest_example :
    Outcome host unset site "s1" tuesday_write (site_row "home" "a" 1) 1 2 db renamed true
unfolding get
overwrite-latest_example =
    overwrite-latest host unset site "s1" tuesday_write (site_row "home" "a" 1) (aware 1) (aware 2)
      db renamed true refl refl (refl, (refl, tt)) refl overwrite_test

abbrev entries : List Entry
entries =
    record { host = host; seq = some 7; event = some hostile }
    ∷ record { host = host; seq = some 8; event = none }
    ∷ record { host = host; seq = some 9; event = some rename }
    ∷ []

batch-progress_example :
    let out = apply_event_batch unset 60 "www2" entries db in
    (out.0.applied + out.0.skipped + out.0.errors ≡ 3) × (get_sync_cursor "www2" out.1 ≡ 9)
batch-progress_example = batch-progress unset 60 "www2" "www2" entries db db-AllKeyed
