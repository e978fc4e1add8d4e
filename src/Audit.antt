-- ===== src/Audit.antt =====
-- audit/: what leaves the trails for the collector.
pub mod Shipping
