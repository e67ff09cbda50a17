-- ===== src/Watchdog.antt =====
-- The watchdog runtime: app/services/watchdog_runtime and app/models/watchdog.py.
pub mod Types
pub mod Actions
pub mod State
pub mod Tick
