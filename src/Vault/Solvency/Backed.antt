-- ===== src/Vault/Solvency/Backed.antt =====
-- The USDC behind the deposits, when one node is written and when USDC leaves the vault.
use stellar_exit_contracts.Vault.Solvency.{
  NodeIsSound, AccountIsSound, deposits, IsBacked, IsSolvent,
}
use stellar_exit_contracts.Vault.Solvency.Accounts.{deposits-insert}
use stellar_exit_contracts.Vault.Solvency.Arithmetic.{eq-pos_part}
use stellar_exit_contracts.Vault.Hooks.{reserved}
use stellar_exit_contracts.State.Vault.{Node, Config}
use stellar_exit_contracts.Host.Chain.{Address, Env, Chain, World, Sep41}
use stellar_exit_contracts.Host.Ledger.{balance-sent}
use stellar_exit_contracts.Prelude.{◌≤◌, ◌≡◌, some, arith, subst, ap}
use stellar_exit_contracts.Prelude.Int.{ℤ, pos, pos_part, ◌-ℤ◌, ◌≤ℤ◌, int_laws, parts_exclusive}
use stellar_exit_contracts.Prelude.Dict.{lookup, insert}

module _ {c : Chain} (w : World c) (node : Address) {self : Address} (s : IsSolvent self w) where
  -- The node that the accounts' soundness speaks of, once it is found.
  pub found-NodeIsSound :
      (n : Node)
      → lookup node w.vault.nodes ≡ some n
      → NodeIsSound n (reserved (w.vault.withdrawals node))
  found-NodeIsSound n known =
      subst (λ o. AccountIsSound o (w.vault.withdrawals node)) known (s.accounts node)

  -- A write that leaves the deposit alone leaves the sum alone.
  pub same_deposit-IsBacked :
      (n old : Node)
      → lookup node w.vault.nodes ≡ some old
      → n.deposited ≡ old.deposited
      → IsBacked c self w.vault.config (insert node n w.vault.nodes) w.ledger
  same_deposit-IsBacked n old known same =
      ground (arith, s.backed, deposits-insert node n old w.vault.nodes known)

  -- USDC that leaves the vault is taken off the node's deposit.
  pub sent-IsBacked :
      Sep41 c
      → (e : Env) (config : Config) (n old : Node) (to : Address) (amount : ℤ) (l : Chain.Ledger c)
      → w.vault.config ≡ some config
      → lookup node w.vault.nodes ≡ some old
      → pos 0 ≤ℤ amount
      → amount ≤ℤ old.deposited
      → n.deposited ≡ old.deposited -ℤ amount
      → Chain.transfer c e config.usdc self to amount w.ledger ≡ some l
      → IsBacked c self w.vault.config (insert node n w.vault.nodes) l
  sent-IsBacked law e config n old to amount l configured known nonneg held less moved =
      let sent =
        balance-sent law e config.usdc self to (pos_part amount) w.ledger l
          (rw (← eq-pos_part amount nonneg) moved) in
      rw configured (
        omega (
          int_laws,
          backed_by,
          ap (λ (m : ℤ). pos_part m) less,
          deposits-insert node n old w.vault.nodes known,
          sent,
          parts_exclusive (old.deposited -ℤ amount),
          parts_exclusive amount,
        ))
    where
      backed_by : deposits w.vault.nodes ≤ Chain.balance c w.ledger config.usdc self
      backed_by = subst (λ o. IsBacked c self o w.vault.nodes w.ledger) configured s.backed
