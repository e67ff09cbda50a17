-- ===== src/Schedules.antt =====
-- Schedules: app/services/schedules.py, app/services/schedule_runtime.py and
-- app/services/runtime_flags.py.
pub mod Types
pub mod Next
pub mod Flags
pub mod Reconcile
pub mod Tick
