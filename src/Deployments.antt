-- ===== src/Deployments.antt =====
-- Firmware deployments: app/services/deployments.py.
pub mod Types
pub mod Create
pub mod Device
pub mod Calls
pub mod Actives
pub mod Single
pub mod Newest
pub mod Rollout
