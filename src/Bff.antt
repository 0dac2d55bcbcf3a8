-- ===== src/Bff.antt =====
-- The storefront's service client (apps/storefront/src/lib/bff.ts).
pub mod Call
pub mod Retry
pub mod Gather
