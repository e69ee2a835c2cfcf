-- ===== src/Tests/Funds.antt =====
-- The tokens behind the contracts, on the fixture with nobody in line.
use stellar_exit_contracts.Tests.Fixture.{table_chain, table_law, by}
use stellar_exit_contracts.Tests.Calm.{
  after, calm, calm-IsWired, calm-IsFunded, accepted, accepting, wired, wired-IsWired,
}
use stellar_exit_contracts.System.{Operation, perform, IsConsistent}
use stellar_exit_contracts.System.Funds.{IsFunded, IsGuarded}
use stellar_exit_contracts.System.Funds.Calls.{perform-IsFunded}
use stellar_exit_contracts.System.History.{History, History-IsSafe}
use stellar_exit_contracts.Vault.Operations
use stellar_exit_contracts.Vault.Capital.{deposit}
use stellar_exit_contracts.Auction.Operations as AuctionOperations
use stellar_exit_contracts.Host.Chain.{World}
use stellar_exit_contracts.Prelude.{refl, arith}
use stellar_exit_contracts.Prelude.Int.{pos, ◌+ℤ◌, fits}
use stellar_exit_contracts.Prelude.Dict.{lookup, insert}

seller-IsGuarded : IsGuarded table_chain 103 (by 3 103 4100)
seller-IsGuarded = record {
  external = record { uninvoked = refl; auction_unsigned = refl; router_unsigned = refl };
  vault_unsigned = refl;
  router_vault = λ h. omega (arith, h);
  self_vault = λ h. omega (arith, h);
  self_router = λ h. omega (arith, h);
}

perform-IsFunded_example : IsFunded accepted
unfolding perform AuctionOperations.perform
perform-IsFunded_example =
    perform-IsFunded 103 (Operation.auction (AuctionOperations.accept_bid 7)) (by 3 103 4100) calm
      accepted table_law seller-IsGuarded refl calm-IsWired calm-IsFunded accepting

abbrev deposited : World table_chain
deposited = after (deposit (by 1 100 4000) 1 (pos 50) wired)

to_deposited : History 103 wired deposited
unfolding perform Operations.perform deposit lookup insert ◌+ℤ◌ fits
to_deposited =
    History.call (Operation.vault (Operations.deposit 1 (pos 50))) (by 1 100 4000) History.here
      (record {
        external = record { uninvoked = refl; auction_unsigned = refl; router_unsigned = refl };
        vault_unsigned = refl;
        router_vault = λ h. omega (arith, h);
        self_vault = λ h. omega (arith, h);
        self_router = λ h. omega (arith, h);
      })
      refl wired-IsWired refl

History-IsSafe_example : IsConsistent deposited × IsFunded deposited
History-IsSafe_example =
    History-IsSafe 103 wired table_law
      (record {
        exits = refl;
        lines = λ asset. refl;
        nodes = refl;
        withdrawals = λ a. refl;
        escrows = refl;
        fee = omega arith;
      })
      to_deposited
