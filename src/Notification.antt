-- ===== src/Notification.antt =====
-- Notifications (services/notification-service).
pub mod Types
pub mod Delivery
pub mod Recipients
pub mod Templates
pub mod Webhook
pub mod Consumer
