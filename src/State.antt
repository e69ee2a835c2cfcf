-- ===== src/State.antt =====
-- What each contract stores, refuses with and publishes: the `contracttype`, `contracterror` and
-- `contractevent` items of the five contracts.
pub mod Errors
pub mod Codes
pub mod Refusals
pub mod Events
pub mod Vault
pub mod Router
pub mod Queue
pub mod Auction
pub mod Faucet
