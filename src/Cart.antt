-- ===== src/Cart.antt =====
-- cart-service (services/cart-service/src/cart.ts).
pub mod Types
pub mod Codes
pub mod Lines
pub mod Redis
pub mod Pricing
pub mod Service
pub mod Routes
