-- ===== src/Policy.antt =====
-- policy/: the decision engine and the path patterns of public resources.
pub mod Engine
pub mod Glob
