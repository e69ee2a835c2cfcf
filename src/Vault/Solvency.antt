-- ===== src/Vault/Solvency.antt =====
-- The vault's invariant: the free balance of every node (contracts/lp_vault/src/contract.rs, the
-- comment above `LpVault`), and the USDC that stands behind all of them.
pub mod Accounts
pub mod Arithmetic
pub mod Backed
pub mod Hooks
pub mod Capital
use stellar_exit_contracts.Vault.Hooks.{reserved}
use stellar_exit_contracts.State.Vault.{Config, Node, WithdrawRequest}
use stellar_exit_contracts.Host.Chain.{Address, Env, Chain, World}
use stellar_exit_contracts.Vault.Effects.{IsAuthorized}
use stellar_exit_contracts.Prelude.{ℕ, ◌≤◌, ◌<◌, ◌^◌, ◌≡◌, Option, some, none}
use stellar_exit_contracts.Prelude.Int.{ℤ, pos, pos_part, ◌+ℤ◌, ◌≤ℤ◌}
use stellar_exit_contracts.Prelude.Dict.{Dict, lookup, total}

-- What is locked and what is reserved are parts of what is there.
pub record NodeIsSound (n : Node) (reserve : ℤ) : Type 0 where
  pub committed_nonneg : pos 0 ≤ℤ n.committed
  pub reserve_nonneg : pos 0 ≤ℤ reserve
  pub filled_nonneg : pos 0 ≤ℤ n.filled
  pub covered : n.committed +ℤ reserve ≤ℤ n.deposited
  pub bounded : pos_part n.deposited < 2 ^ 127

-- An unknown node has no withdrawal pending.
abbrev pub AccountIsSound : Option Node → Option WithdrawRequest → Type 0
AccountIsSound none r = r ≡ none
AccountIsSound (some n) r = NodeIsSound n (reserved r)

abbrev pub AccountsAreSound : Dict Node → (ℕ → Option WithdrawRequest) → Type 0
AccountsAreSound nodes withdrawals = (b : Address) → AccountIsSound (lookup b nodes) (withdrawals b)

-- All that the nodes have in the vault.
abbrev pub deposits : Dict Node → ℕ
deposits nodes = total (λ n. pos_part n.deposited) nodes

-- The vault at `self` holds at least that much of its USDC; before it is initialised, there is no
-- deposit.
abbrev pub IsBacked : (c : Chain) → Address → Option Config → Dict Node → Chain.Ledger c → Type 0
IsBacked c self none nodes ledger = deposits nodes ≡ 0
IsBacked c self (some config) nodes ledger =
    deposits nodes ≤ Chain.balance c ledger config.usdc self

pub record IsSolvent {c : Chain} (self : Address) (w : World c) : Type 0 where
  pub accounts : AccountsAreSound w.vault.nodes w.vault.withdrawals
  pub backed : IsBacked c self w.vault.config w.vault.nodes w.ledger

-- A contract cannot call itself, and its address signs nothing.
abbrev pub IsOutside : Env → Type 0
IsOutside e = ¬ IsAuthorized e e.current
