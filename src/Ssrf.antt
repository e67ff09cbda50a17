-- ===== src/Ssrf.antt =====
-- The guard of outbound requests: app/services/ssrf_guard.py.
pub mod Address
pub mod Validate
