-- ===== src/Authz.antt =====
-- authz/: the access decisions of the data plane.
pub mod Decision
pub mod PublicGate
pub mod Gateway
pub mod Check
pub mod PublicForm
pub mod Grants
pub mod Callback
