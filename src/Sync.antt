-- ===== src/Sync.antt =====
-- The replication between hubs: app/services/sync.py, app/services/sync_replicator.py and
-- app/models/sync.py.
pub mod Types
pub mod Values
pub mod Session
pub mod Tables
pub mod Apply
pub mod Batch
