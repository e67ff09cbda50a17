-- ===== src/Webhooks.antt =====
-- Outbound webhooks: app/services/webhook_delivery.py.
pub mod Types
pub mod Send
pub mod Tick
pub mod Emit
