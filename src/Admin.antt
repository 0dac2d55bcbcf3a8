-- ===== src/Admin.antt =====
-- The admin app (apps/admin/src): its service client, its session and its routes.
pub mod Client
pub mod Session
pub mod Routes
pub mod Access
pub mod Saga
pub mod Pages
pub mod Controls
pub mod Actions
