-- ===== src/Tests/Router.antt =====
-- The router, run on the fixture, and its theorems there.
use stellar_exit_contracts.Tests.Fixture.{
  table_chain, table_law, by, from, world, vault_config, router_config, escrow_seven, node_one,
}
use stellar_exit_contracts.Router.{
  settle, refund, set_treasury, quote_net, vault_pay_out, pay_fee, split_fee, put_remaining,
}
use stellar_exit_contracts.Router.Fees.{fee_of, fee_bounds}
use stellar_exit_contracts.Router.Operations.{Operation, perform, IsSecure, perform-IsSecure}
use stellar_exit_contracts.Router.Payment.{charged, settle_charges}
use stellar_exit_contracts.Router.Balances.{share, settle_balances}
use stellar_exit_contracts.Router.Once.{Later, settle_or_refund_once}
use stellar_exit_contracts.Vault.Hooks.{pay_out}
use stellar_exit_contracts.State.Errors.{Error, RouterError}
use stellar_exit_contracts.Host.Chain.{Address, Env, World}
use stellar_exit_contracts.Host.Call.{Result, ok, err}
use stellar_exit_contracts.Prelude.{◌<◌, ◌+◌, ◌*◌, ◌≤◌, ◌≡◌, ◌≢◌, refl, some, inl, arith}
use stellar_exit_contracts.Prelude.Int.{ℤ, pos, pos_part, ◌-ℤ◌, ◌+ℤ◌, ◌*ℤ◌, quot, fits, ◌≤ℤ◌, ◌<ℤ◌}
use stellar_exit_contracts.Prelude.Dict.{lookup, insert, remove, total}

abbrev after : {A : Type 0} → Result (A × World table_chain) → World table_chain
after (ok (_, w)) = w
after (err x) = world

net_of_hundred : quote_net {c = table_chain} (pos 100) world ≡ ok (pos 99, world)
unfolding quote_net ◌*ℤ◌ quot ◌-ℤ◌ fits
net_of_hundred = refl

abbrev cleared : World table_chain
cleared = after (settle (from 103 101 6000) 7 1 (pos 40) (pos 100) world)

world-IsSecure : IsSecure 101 world
unfolding lookup total
world-IsSecure = record {
  cover = record { positive = λ j. ground arith; covered = λ t. ground arith };
  fee = omega arith;
}

settling : settle (from 103 101 6000) 7 1 (pos 40) (pos 100) world ≡ ok (tt, cleared)
unfolding settle split_fee vault_pay_out pay_fee put_remaining pay_out lookup insert remove ◌-ℤ◌
    ◌+ℤ◌ ◌*ℤ◌ quot fits
settling = refl

perform-IsSecure_example : IsSecure 101 cleared
unfolding perform
perform-IsSecure_example =
    perform-IsSecure (Operation.settle 7 1 (pos 40) (pos 100)) (from 103 101 6000) world cleared
      table_law (λ h. cc) (λ h. omega (arith, h)) world-IsSecure settling

settle_charges_example :
    (lookup 1 cleared.vault.nodes ≡ some (charged node_one (pos 100)))
    × ((b : Address) → b ≢ 1 → lookup b cleared.vault.nodes ≡ lookup b world.vault.nodes)
unfolding lookup
settle_charges_example =
    settle_charges (from 103 101 6000) 7 1 (pos 40) (pos 100) world cleared node_one settling refl

fee_bounds_example :
    (fee : ℤ) × (net : ℤ) × (split_fee {c = table_chain} router_config (pos 199) world
      ≡ ok ((fee, net), world))
    × (pos 0 ≤ℤ fee)
    × (pos_part fee * 10000 ≤ 199 * 100)
    × (199 * 100 < (pos_part fee + 1) * 10000)
    × (pos_part fee * 20 ≤ 199)
    × (net ≡ pos 199 -ℤ fee)
    × (pos 0 <ℤ net)
unfolding ◌*ℤ◌ fits
fee_bounds_example = fee_bounds router_config (pos 199) world (omega arith) (omega arith) refl refl

-- The administrator points the router at a new treasury.
abbrev moved_on : World table_chain
moved_on = after (set_treasury (by 9 101 6001) 12 cleared)

to_moved_on : Later 7 cleared moved_on
unfolding perform set_treasury settle lookup split_fee fits ◌*ℤ◌ ◌-ℤ◌ quot vault_pay_out pay_out
    ◌+ℤ◌ pay_fee insert put_remaining
to_moved_on = Later.call (Operation.set_treasury 12) (by 9 101 6001) Later.here refl refl

settle_or_refund_once_example :
    (settle (from 103 101 6002) 7 2 (pos 5) (pos 10) moved_on
      ≡ err (Error.router RouterError.nothing_escrowed))
    × (refund (from 103 101 6002) 7 moved_on ≡ err (Error.router RouterError.nothing_escrowed))
    × ((caller : Env) (payer : Address) (tokens usdc : ℤ) (u : World table_chain)
        → settle caller 7 payer tokens usdc moved_on ≢ ok (tt, u))
    × ((caller : Env) (u : World table_chain) → refund caller 7 moved_on ≢ ok (tt, u))
unfolding settle split_fee vault_pay_out pay_fee put_remaining pay_out lookup insert remove ◌-ℤ◌
    ◌+ℤ◌ ◌*ℤ◌ quot fits set_treasury
settle_or_refund_once_example =
    settle_or_refund_once 7 (from 103 101 6000) (from 103 101 6002) 1 2 (pos 40) (pos 100) (pos 5)
      (pos 10) world cleared moved_on escrow_seven
      (record {
        config = record router_config { treasury = 12 };
        auction = 103;
        configured = refl;
        wired = refl;
      })
      refl (inl (settling, refl)) to_moved_on refl (omega arith) (omega arith)

-- The seller's USDC.
settle_balances_example :
    cleared.ledger 10 3 + share 10 100 (pos 100) 10 3 + share 20 101 (pos 40) 10 3
    ≡ world.ledger 10 3
      + share 10 3 (pos 100 -ℤ fee_of router_config (pos 100)) 10 3
      + share 10 8 (fee_of router_config (pos 100)) 10 3
      + share 20 1 (pos 40) 10 3
unfolding lookup
settle_balances_example =
    settle_balances table_law (from 103 101 6000) 7 1 (pos 40) (pos 100) world cleared router_config
      vault_config escrow_seven refl refl refl settling 10 3
