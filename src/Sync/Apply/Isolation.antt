-- ===== src/Sync/Apply/Isolation.antt =====
-- What an event that claims an org leaves alone.
use rebooter_droids.Base.{String, false, some, ◌≡◌}
use rebooter_droids.Base.Table.{get}
use rebooter_droids.Tenancy.{Scope}
use rebooter_droids.Sync.Types.{Row, Kind, Db, table_of}
use rebooter_droids.Sync.Tables.{AllKeyed}

-- A table has a row under an id.
record Holds (k : Kind) (id : String) (row : Row) (db : Db) : Type 0 where
  pub keyed : AllKeyed db
  pub there : get id (table_of k db) ≡ some row

abbrev claim_scope : String → Scope
claim_scope org = record { current_org = some org; bypass = false }
