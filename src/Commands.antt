-- ===== src/Commands.antt =====
-- The command queue: app/services/commands.py and app/models/commands.py.
pub mod Types
pub mod Payload
pub mod Queue
pub mod Lifecycle
pub mod Calls
pub mod Consistency
