-- ===== src/Tests.antt =====
-- Runs at concrete inputs.
mod Payments
mod Refunds
mod Keys
mod Books
mod Cards
mod Texts
mod Statements
mod Offers
mod Rights
mod Codes
mod Points
mod Deliveries
mod Orders
mod Referrers
mod Draws
