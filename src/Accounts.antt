-- ===== src/Accounts.antt =====
-- The users of the hub, their sessions and password resets, and how a request is authenticated.
pub mod Types
pub mod Users
pub mod Auth
pub mod Calls
pub mod Stamps
pub mod Cutoff
