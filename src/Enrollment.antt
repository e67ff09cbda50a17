-- ===== src/Enrollment.antt =====
-- Enrollment of devices: app/services/enrollment.py, and the credential check of
-- app/middleware/device_auth.py.
pub mod Types
pub mod Payload
pub mod Tokens
pub mod Consume
pub mod Auth
