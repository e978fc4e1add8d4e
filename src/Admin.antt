-- ===== src/Admin.antt =====
-- admin/: the administrators' API and the users' portal, over the identity provider's tokens.
pub mod Deps
pub mod Changes
pub mod Accounts
pub mod Users
pub mod Shapes
pub mod Targets
pub mod Resources
pub mod Portal
pub mod Rules
