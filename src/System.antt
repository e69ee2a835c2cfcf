-- ===== src/System.antt =====
-- The four contracts of contracts/ as one system: a call that comes from outside goes to one of them,
-- and what they store agrees.
pub mod Quiet
pub mod Vault
pub mod Outside
pub mod Consistency
pub mod Progress
pub mod Bidder
pub mod Cancelling
pub mod Accepting
pub mod Funds
pub mod History
use stellar_exit_contracts.Vault.Operations as VaultOperations
use stellar_exit_contracts.Router.Operations as RouterOperations
use stellar_exit_contracts.Queue.Operations as QueueOperations
use stellar_exit_contracts.Auction.Operations as AuctionOperations
use stellar_exit_contracts.Auction.Exits.{IsSound}
use stellar_exit_contracts.Auction.Custody.{IsHeld}
use stellar_exit_contracts.Auction.Waiting.{IsLined}
use stellar_exit_contracts.Auction.Pledges.{IsPledged}
use stellar_exit_contracts.Auction.Backed.{HasTerms}
use stellar_exit_contracts.Queue.Calls.{IsOrderly}
use stellar_exit_contracts.State.Vault as VaultState
use stellar_exit_contracts.State.Router as RouterState
use stellar_exit_contracts.State.Queue as QueueState
use stellar_exit_contracts.State.Auction as AuctionState
use stellar_exit_contracts.Host.Chain.{Address, Env, Chain, World}
use stellar_exit_contracts.Host.Call.{Call}
use stellar_exit_contracts.Prelude.{◌≡◌, false, some, none}

-- A transaction's call.
pub data Operation : Type 0 where
  vault : VaultOperations.Operation → Operation
  router : RouterOperations.Operation → Operation
  queue : QueueOperations.Operation → Operation
  auction : AuctionOperations.Operation → Operation

module _ {c : Chain} where
  unfoldable pub perform : Operation → Env → Call c (Unit {0})
  perform (Operation.vault op) e = VaultOperations.perform op e
  perform (Operation.router op) e = RouterOperations.perform op e
  perform (Operation.queue op) e = QueueOperations.perform op e
  perform (Operation.auction op) e = AuctionOperations.perform op e

  -- The deployment wires the contracts: the auction stands at `self`, the others let in it, and the
  -- vault the router, alone, and each knows where those that it calls are.
  pub record IsWired (self : Address) (w : World c) : Type 0 where
    pub vault : VaultState.Config
    pub router : RouterState.Config
    pub queue : QueueState.Config
    pub auction : AuctionState.Config
    pub vault_configured : w.vault.config ≡ some vault
    pub router_configured : w.router.config ≡ some router
    pub queue_configured : w.queue.config ≡ some queue
    pub auction_configured : w.auction.config ≡ some auction
    pub vault_auction : vault.auction ≡ some self
    pub vault_router : vault.router ≡ some (Chain.router_address c)
    pub router_auction : router.auction ≡ some self
    pub queue_auction : queue.auction ≡ some self
    pub router_vault : router.vault ≡ Chain.vault_address c
    pub auction_vault : auction.vault ≡ Chain.vault_address c
    pub auction_router : auction.router ≡ Chain.router_address c
    pub auction_queue : auction.queue ≡ Chain.queue_address c

  -- What the contracts store agrees: the exits are sound and the lines orderly, the router holds the
  -- tokens of the live exits, the queued exits are those in the lines, the vault has locked for each
  -- node what it has bid, and each bidder has terms.
  pub record IsConsistent (w : World c) : Type 0 where
    pub sound : IsSound w
    pub orderly : IsOrderly w
    pub held : IsHeld w
    pub lined : IsLined w
    pub pledges : IsPledged w
    pub backed : HasTerms w

-- A call that no contract makes, and for which neither the auction nor the router signs: the address of
-- a contract has no key.
pub record IsExternal (self router : Address) (e : Env) : Type 0 where
  pub uninvoked : e.invoker ≡ none
  pub auction_unsigned : e.signed self ≡ false
  pub router_unsigned : e.signed router ≡ false
