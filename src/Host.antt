-- ===== src/Host.antt =====
-- The Soroban host, as far as the contracts use it: the call's environment, the state of the chain,
-- calls that fail as a whole, the tokens and the calls from one contract to another.
pub mod Chain
pub mod Call
pub mod Ledger
