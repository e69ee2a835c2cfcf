-- ===== src/Vault/Solvency/Accounts.antt =====
-- How the accounts' soundness follows a write of one node or one withdrawal.
use stellar_exit_contracts.Vault.Solvency.{NodeIsSound, AccountIsSound, AccountsAreSound, deposits}
use stellar_exit_contracts.Vault.Hooks.{reserved}
use stellar_exit_contracts.State.Vault.{Node, WithdrawRequest}
use stellar_exit_contracts.Host.Chain.{Address}
use stellar_exit_contracts.Prelude.{
  ℕ, ◌+◌, ◌==◌, ◌≡◌, inl, inr, Option, some, none, Bool-cases, arith, ==→eq, subst,
}
use stellar_exit_contracts.Prelude.Int.{pos_part}
use stellar_exit_contracts.Prelude.Dict.{Dict, lookup, insert, update, lookup-insert, total-insert}

module _ (k : Address) (nodes : Dict Node) (withdrawals : ℕ → Option WithdrawRequest) where
  pub insert-AccountsAreSound :
      (n : Node)
      → AccountsAreSound nodes withdrawals
      → NodeIsSound n (reserved (withdrawals k))
      → AccountsAreSound (insert k n nodes) withdrawals
  insert-AccountsAreSound n all one b = elim (Bool-cases (k == b)) [
    | inl same ↦
        rw (lookup-insert b k n nodes, same)
          (subst (λ j. NodeIsSound n (reserved (withdrawals j))) (==→eq k b same) one)
    | inr other ↦ rw (lookup-insert b k n nodes, other) (all b)
  ]

  pub update-AccountsAreSound :
      (r : Option WithdrawRequest)
      → AccountsAreSound nodes withdrawals
      → AccountIsSound (lookup k nodes) r
      → AccountsAreSound nodes (update k r withdrawals)
  update-AccountsAreSound r all one b = elim (Bool-cases (k == b)) [
    | inl same ↦ rw same (subst (λ j. AccountIsSound (lookup j nodes) r) (==→eq k b same) one)
    | inr other ↦ rw other (all b)
  ]

  -- Both writes together, where neither alone need be sound.
  pub replace-AccountsAreSound :
      (n : Node) (r : Option WithdrawRequest)
      → AccountsAreSound nodes withdrawals
      → NodeIsSound n (reserved r)
      → AccountsAreSound (insert k n nodes) (update k r withdrawals)
  replace-AccountsAreSound n r all one b = elim (Bool-cases (k == b)) [
    | inl same ↦ rw (lookup-insert b k n nodes, same) one
    | inr other ↦ rw (lookup-insert b k n nodes, other) (all b)
  ]

-- A write of a known node moves the sum of the deposits by the difference.
pub deposits-insert :
    (k : Address) (n old : Node) (nodes : Dict Node)
    → lookup k nodes ≡ some old
    → deposits (insert k n nodes) + pos_part old.deposited ≡ deposits nodes + pos_part n.deposited
deposits-insert k n old nodes e =
    ground (arith, total-insert (λ (m : Node). pos_part m.deposited) k n nodes)

pub deposits-insert_new :
    (k : Address) (n : Node) (nodes : Dict Node)
    → lookup k nodes ≡ none
    → deposits (insert k n nodes) ≡ deposits nodes + pos_part n.deposited
deposits-insert_new k n nodes e =
    ground (arith, total-insert (λ (m : Node). pos_part m.deposited) k n nodes)
