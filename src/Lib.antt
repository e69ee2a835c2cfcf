-- ===== src/Lib.antt =====
-- The contracts of the DobDex exit layer: lp_vault, settlement_router, fifo_queue and exit_auction
-- (contracts/), and the testnet faucet (testnet/faucet).
--
-- A holder of a tokenized asset opens an exit at the auction; the router takes the tokens into escrow;
-- nodes bid with capital that they hold in the vault, which the auction locks (`commit`) and unlocks
-- (`release`); a fill goes through the router, which has the vault pay the seller and the treasury
-- (`pay_out`) and hands the tokens to the node; an exit that found no acceptable bid waits in the queue
-- of its asset, and only the head of the line may be filled.
--
-- Which file models what:
-- - Prelude: Boolean tests, the integers for `i128`, maps, and lists by position.
-- - State: what each contract stores, its errors with their numbers and its events, a record or
--   data type for each struct or enum. Refusals reads a number back. A map whose values the
--   theorems add up is an association list, another one a function of its key. `DataKey` is the set
--   of fields of `Storage`.
-- - Host: a call takes an `Env` (the ledger's time, the contract that runs, the contract that calls,
--   who signed) and goes from one `World`, the state of all contracts, to the next, or fails with an
--   error. A failed call has no world, since the host undoes it. `require_auth` accepts the calling
--   contract or a signature. Arithmetic is exact and then checked for its range, as the release profile
--   of Cargo.toml has overflow checks on. A call of another contract reaches it if the stored address is
--   the one where it is deployed, and carries its error up.
-- - Vault (contracts/lp_vault/src): Storage is storage.rs; Lifecycle, Capital, Terms, Hooks and Queries
--   are the sections of contract.rs, an operation by the name that it has there. Operations has all
--   entry points as one type. Effects, Solvency, Withdrawal, Quote, Exposure and Standing hold
--   proofs.
-- - Queue (contracts/fifo_queue/src/lib.rs): the file itself has the operations; Line, Calls, Operations
--   and Order hold proofs.
-- - Router (contracts/settlement_router/src/lib.rs): the file itself has the operations; Effects,
--   Settlement, Fees, Payment, Balances, Cover, Operations, Gone, Once, Progress and Settling hold
--   proofs.
-- - Auction (contracts/exit_auction/src/lib.rs): Storage has the internals, Seller the lifecycle and the
--   seller's side, Bids the node's side and the closing of the window, Queries the queries.
--   Operations has all entry points as one type. Frame and Effects hold what a call that succeeds has
--   found and done, here and in the other contracts; Exits, Life, Closing, Discount, Refusing, Outbidding,
--   Custody, Waiting, Pledges and Backed hold proofs.
-- - Faucet (testnet/faucet/src/lib.rs): the file itself has the operations; Cooldown holds proofs.
-- - System: the four contracts together. A call from outside goes to one of them and makes the calls of
--   the others on the way. `IsWired` says that each knows the address where the others are deployed, as
--   the deployment's scripts set them; `IsExternal` and `IsGuarded` that no contract makes the call and
--   that the address of a contract signs nothing, since it has no key. Consistency, Funds and History
--   hold what every call keeps, Cancelling and Accepting that a seller's calls go through.
-- - Tests: runs and theorems on a concrete chain.
--
-- Every loop of the contracts goes over a stored list, so that recursion on the list needs no fuel.
-- Token contracts are the parameter `Chain`: a ledger with `transfer` and `mint`, of which theorems
-- assume, as `Sep41`, that a transfer moves the amount from one balance to the other and changes no
-- other balance. That a transfer changes no contract's storage is assumed of them too: the host lets no
-- contract on the stack of calls be entered again, but does not stop a token from calling another one.
--
-- Not modelled: the time to live of storage entries, which changes no value; the scope of a signature
-- within one transaction; the monitor and the scripts.
pub mod Prelude
pub mod State
pub mod Host
pub mod Vault
pub mod Queue
pub mod Router
pub mod Auction
pub mod Faucet
pub mod System
mod Tests
