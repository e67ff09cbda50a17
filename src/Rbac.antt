-- ===== src/Rbac.antt =====
-- Role bindings: app/services/role_bindings.py with app/models/role_bindings.py.
pub mod Bindings
pub mod Effective
pub mod Gate
