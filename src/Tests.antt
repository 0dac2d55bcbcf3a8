-- ===== src/Tests.antt =====
-- Runs of the models on concrete data, and the theorems at concrete inputs.
mod Carts
mod Lines
mod Breakers
mod Notifications
mod Consumers
mod Calls
mod Products
mod Reviews
mod Orders
mod Sessions
mod Admins
mod Baskets
mod Listings
mod Checkouts
mod Searches
mod Accounts
mod Cursors
