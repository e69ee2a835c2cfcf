-- ===== src/Vault.antt =====
-- contracts/lp_vault: the vault that holds the nodes' USDC and their standing terms.
pub mod Storage
pub mod Effects
pub mod Lifecycle
pub mod Capital
pub mod Terms
pub mod Hooks
pub mod Queries
pub mod Operations
pub mod Solvency
pub mod Withdrawal
pub mod Quote
pub mod Exposure
pub mod Standing
