-- ===== src/Tests.antt =====
-- Concrete runs of the contracts, and each theorem at an input that meets its hypotheses.
mod Fixture
mod Sale
mod Vault
mod Queue
mod Router
mod Auction
mod Bidding
mod Waiting
mod Faucet
mod Calm
mod System
mod Funds
