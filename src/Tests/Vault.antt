-- ===== src/Tests/Vault.antt =====
-- The vault, run on the fixture, and its theorems there.
use stellar_exit_contracts.Tests.Fixture.{
  table_chain, table_law, by, from, world, vault_config, node_one, terms_one, withdrawal_one,
}
use stellar_exit_contracts.Vault.Capital.{deposit, request_withdrawal, execute_withdrawal}
use stellar_exit_contracts.Vault.Hooks.{commit, release}
use stellar_exit_contracts.Vault.Queries.{free_balance, quote_capacity}
use stellar_exit_contracts.Vault.Operations
use stellar_exit_contracts.Vault.Operations.{Operation}
use stellar_exit_contracts.Vault.Operations.Reachable.{perform-IsSolvent, Reach, Reach-IsSolvent}
use stellar_exit_contracts.Vault.Solvency.{IsSolvent}
use stellar_exit_contracts.Vault.Effects.{Backing}
use stellar_exit_contracts.Vault.Withdrawal.{
  execute_withdrawal-ne-insufficient, execute_withdrawal_pays, request_withdrawal_locks,
}
use stellar_exit_contracts.Vault.Quote.{commit_iff_quote}
use stellar_exit_contracts.Vault.Terms.{set_appetite, reduce_exposure}
use stellar_exit_contracts.Vault.Lifecycle.{initialize}
use stellar_exit_contracts.Vault.Exposure.{
  set_appetite_ages, reduce_exposure_blocks_release, free_balance_exact,
}
use stellar_exit_contracts.Vault.Standing.{widened_terms_keep_commits}
use stellar_exit_contracts.State.Errors.{Error, VaultError}
use stellar_exit_contracts.Host.Chain.{World}
use stellar_exit_contracts.Host.Call.{Result, ok, err}
use stellar_exit_contracts.Prelude.{◌≡◌, ◌≢◌, ◌↔◌, [], refl, true, none, arith}
use stellar_exit_contracts.Prelude.Int.{pos, ◌-ℤ◌, ◌+ℤ◌, ◌*ℤ◌, quot, fits, ◌≤ℤ◌}
use stellar_exit_contracts.Prelude.Dict.{lookup, insert, total}

abbrev state_of : Result (Unit {0} × World table_chain) → World table_chain
state_of (ok (_, w)) = w
state_of (err x) = world

world-IsSolvent : IsSolvent 100 world
unfolding lookup total ◌+ℤ◌
world-IsSolvent = record { accounts = λ b. ground arith; backed = omega arith }

free_one : free_balance {c = table_chain} 1 world ≡ ok (pos 700, world)
unfolding free_balance lookup ◌-ℤ◌ fits
free_one = refl

perform-IsSolvent_example :
    IsSolvent 100
      (state_of (Operations.perform (Operation.deposit 1 (pos 50)) (by 1 100 6000) world))
unfolding Operations.perform deposit lookup insert ◌+ℤ◌ fits
perform-IsSolvent_example =
    perform-IsSolvent (Operation.deposit 1 (pos 50)) (by 1 100 6000) world _ table_law (λ h. cc)
      world-IsSolvent refl

-- The vault before it is initialised, and one call later.
abbrev unopened : World table_chain
unopened = record world {
  vault = record {
    config = none;
    nodes = [];
    appetites = λ node asset. none;
    withdrawals = λ node. none;
  };
}

abbrev opening : Operation
opening = Operation.initialize 9 10 (pos 1) none none

Reach-IsSolvent_example :
    IsSolvent 100 (state_of (Operations.perform opening (by 9 100 0) unopened))
unfolding Operations.perform initialize
Reach-IsSolvent_example =
    Reach-IsSolvent 100 unopened table_law
      (record { config = refl; nodes = refl; withdrawals = λ a. refl })
      (Reach.called opening (by 9 100 0) Reach.here refl (λ h. cc) refl)

abbrev backing_one : Backing 1 20 world
unfolding lookup
backing_one = record {
  account = record { config = vault_config; state = node_one; configured = refl; known = refl };
  appetite = terms_one;
  declared = refl;
}

commit_iff_quote_example :
    ((w' : World table_chain) × (commit (from 103 100 6000) 1 20 (pos 300) 150 world ≡ ok (tt, w')))
    ↔ pos 300 ≤ℤ pos 300
unfolding lookup quote_capacity ◌-ℤ◌ ◌*ℤ◌ quot fits
commit_iff_quote_example =
    commit_iff_quote (from 103 100 6000) 1 20 103 150 (pos 300) (pos 300) world backing_one
      world-IsSolvent refl refl refl refl refl (omega arith)

execute_withdrawal-ne-insufficient_example :
    execute_withdrawal (by 1 100 6000) 1 world
    ≢ err (Error.vault VaultError.insufficient_free_balance)
execute_withdrawal-ne-insufficient_example =
    execute_withdrawal-ne-insufficient (by 1 100 6000) 1 world world-IsSolvent

execute_withdrawal_pays_example :
    execute_withdrawal (by 1 100 6000) 1 world
    ≡ ok (tt, state_of (execute_withdrawal (by 1 100 6000) 1 world))
unfolding execute_withdrawal lookup insert ◌-ℤ◌ fits
execute_withdrawal_pays_example =
    execute_withdrawal_pays (by 1 100 6000) 1 world world-IsSolvent backing_one.account
      withdrawal_one _ refl refl (omega arith) refl

-- Node 1 with no withdrawal pending.
abbrev idle : World table_chain
idle = record world { vault = record (world.vault) { withdrawals = λ node. none } }

request_withdrawal_locks_example :
    execute_withdrawal
      (by 1 100 70000)
      1
      (state_of (request_withdrawal (by 1 100 6000) 1 (pos 300) idle))
    ≡ err (Error.vault VaultError.timelock_not_elapsed)
unfolding request_withdrawal lookup ◌-ℤ◌ fits
request_withdrawal_locks_example =
    request_withdrawal_locks (by 1 100 6000) (by 1 100 70000) 1 (pos 300) idle _ refl
      (record { config = vault_config; state = node_one; configured = refl; known = refl })
      (omega arith) refl

set_appetite_ages_example :
    commit
      (from 103 100 7000)
      1
      21
      (pos 10)
      500
      (state_of (set_appetite (by 1 100 6000) 1 21 (pos 90) 50 true world))
    ≡ err (Error.vault VaultError.backing_too_young)
unfolding set_appetite lookup
set_appetite_ages_example =
    set_appetite_ages (by 1 100 6000) (from 103 100 7000) 1 21 103 (pos 90) (pos 10) 50 500 world _
      backing_one.account tt refl refl refl (omega arith) (omega arith) (omega arith)

widened_terms_keep_commits_example :
    (v' : World table_chain) × (commit
        (from 103 100 6001)
        1
        20
        (pos 300)
        150
        (state_of (set_appetite (by 1 100 6000) 1 20 (pos 900) 50 true world))
      ≡ ok (tt, v'))
    × (v'.vault.nodes
        ≡ (state_of (commit (from 103 100 6001) 1 20 (pos 300) 150 world)).vault.nodes)
unfolding set_appetite commit lookup insert ◌-ℤ◌ ◌+ℤ◌ ◌*ℤ◌ quot fits
widened_terms_keep_commits_example =
    widened_terms_keep_commits (by 1 100 6000) (from 103 100 6001) 1 20 (pos 900) (pos 300) 50 150
      world _ _ terms_one refl (omega arith) (omega arith) refl refl

reduce_exposure_blocks_release_example :
    release
      (from 103 100 6001)
      1
      20
      (pos 100)
      (state_of (reduce_exposure (by 1 100 6000) 1 20 (pos 100) world))
    ≡ err (Error.vault VaultError.commit_underflow)
unfolding lookup reduce_exposure ◌-ℤ◌ ◌+ℤ◌ fits
reduce_exposure_blocks_release_example =
    reduce_exposure_blocks_release (by 1 100 6000) (from 103 100 6001) 1 20 103 (pos 100) (pos 100)
      world _ backing_one refl (omega arith) refl refl (omega arith)

free_balance_exact_example : free_balance {c = table_chain} 1 world ≡ ok (pos 700, world)
unfolding lookup ◌-ℤ◌
free_balance_exact_example = free_balance_exact 100 1 world backing_one.account world-IsSolvent
