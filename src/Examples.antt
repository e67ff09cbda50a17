-- ===== src/Examples.antt =====
-- Tests of the definitions, and the theorems at concrete inputs.
mod Commands
mod Watchdog
mod Rbac
mod Schedules
mod Webhooks
mod Ssrf
mod Bus
mod Emit
mod Tenancy
mod Sync
mod Enrollment
mod Accounts
mod Deployments
