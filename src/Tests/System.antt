-- ===== src/Tests/System.antt =====
-- The four contracts together, run on the fixture with nobody in line, and the theorems on them.
use stellar_exit_contracts.Tests.Calm.{calm, calm-IsWired, calm-IsFunded, accepted, accepting}
use stellar_exit_contracts.Tests.Fixture.{
  table_chain, by, router_config, node_one, terms_one, escrow_seven,
}
use stellar_exit_contracts.Tests.Sale.{
  exit_seven, world_seven, world-IsSound, world-IsHeld, world-IsPledged,
}
use stellar_exit_contracts.System.{Operation, perform, IsConsistent}
use stellar_exit_contracts.System.Consistency.{perform-IsConsistent}
use stellar_exit_contracts.System.Cancelling.{cancel_succeeds, IsCounted}
use stellar_exit_contracts.System.Accepting.{accept_bid_succeeds}
use stellar_exit_contracts.Router.Settling.{Delivers}
use stellar_exit_contracts.Router.Fees.{fee_of}
use stellar_exit_contracts.Vault.Solvency.{AccountsAreSound}
use stellar_exit_contracts.Auction.Operations as AuctionOperations
use stellar_exit_contracts.Auction.Seller.{accept_bid, cancel}
use stellar_exit_contracts.Auction.Effects.Selling.{cancelled}
use stellar_exit_contracts.Queue.Line.{distinct}
use stellar_exit_contracts.State.Auction.{Status}
use stellar_exit_contracts.Host.Chain.{Chain, World, enter}
use stellar_exit_contracts.Host.Call.{ok}
use stellar_exit_contracts.Prelude.{ℕ, ◌≡◌, refl, subst, some, arith, unwrap_or}
use stellar_exit_contracts.Prelude.Int.{ℤ, pos, ◌-ℤ◌, ◌+ℤ◌, ◌*ℤ◌, quot, fits}
use stellar_exit_contracts.Prelude.Dict.{lookup}
use stellar_exit_contracts.Prelude.Lists.{contains}

calm-IsConsistent : IsConsistent calm
unfolding contains distinct lookup
calm-IsConsistent = record {
  sound = record { fair = world-IsSound.fair; unopened = world-IsSound.unopened };
  orderly = record { bounded = λ asset. omega arith; unrepeated = λ asset. refl };
  held = world-IsHeld;
  lined = record {
    stands = λ asset i there. absurd (ground (arith, there));
    waits = λ i x h queued. absurd (ground (arith, h, queued));
  };
  pledges = world-IsPledged;
  backed = λ i x node h bidder. ground (arith, h, bidder);
}

calm_accounts : AccountsAreSound calm.vault.nodes calm.vault.withdrawals
unfolding lookup ◌+ℤ◌
calm_accounts b = ground arith

perform-IsConsistent_example : IsConsistent accepted
unfolding perform AuctionOperations.perform
perform-IsConsistent_example =
    perform-IsConsistent 103 (Operation.auction (AuctionOperations.accept_bid 7)) (by 3 103 4100)
      calm accepted (record { uninvoked = refl; auction_unsigned = refl; router_unsigned = refl })
      calm-IsWired calm-IsConsistent accepting

calm-IsCounted : IsCounted exit_seven calm
unfolding fits
calm-IsCounted node bidder =
    let key : 1 ≡ node = ground (arith, bidder) in
    (terms_one, subst (λ a. calm.vault.appetites a 20 ≡ some terms_one) key refl, omega arith, refl)

-- The ledger after a transfer of the fixture's table.
abbrev moved_by : ℕ → ℕ → ℕ → ℤ → Chain.Ledger table_chain → Chain.Ledger table_chain
moved_by token sender to amount l =
    unwrap_or (Chain.transfer table_chain (by 3 103 4100) token sender to amount l) l

cancel_succeeds_example :
    (w' : World table_chain) × (cancel (by 3 103 4100) 7 calm ≡ ok (tt, w'))
    × (w'.ledger ≡ moved_by 20 101 3 (pos 40) calm.ledger)
    × (lookup 7 w'.auction.exits ≡ some (cancelled exit_seven))
cancel_succeeds_example =
    cancel_succeeds 103 (by 3 103 4100) calm calm-IsWired calm-IsConsistent refl 7 exit_seven
      world_seven refl (moved_by 20 101 3 (pos 40) calm.ledger) calm_accounts calm-IsCounted refl
      refl

abbrev after_seller : Chain.Ledger table_chain
after_seller = moved_by 10 100 3 (pos 99) calm.ledger

abbrev after_treasury : Chain.Ledger table_chain
after_treasury = moved_by 10 100 8 (pos 1) after_seller

abbrev after_node : Chain.Ledger table_chain
after_node = moved_by 20 101 1 (pos 40) after_treasury

sale-Delivers :
    Delivers table_chain
      (enter (by 3 103 4100) 101)
      router_config
      10
      1
      escrow_seven
      (pos 40)
      (pos 100)
      calm.ledger
unfolding fee_of ◌*ℤ◌ quot ◌-ℤ◌
sale-Delivers = record {
  after_seller = after_seller;
  after_treasury = after_treasury;
  after_node = after_node;
  to_seller = refl;
  to_treasury = record { moves = λ due. refl; rests = λ free. absurd (omega (arith, free)) };
  to_node = refl;
}

accept_bid_succeeds_example :
    (w' : World table_chain) × (accept_bid (by 3 103 4100) 7 calm ≡ ok (tt, w'))
    × (w'.ledger ≡ sale-Delivers.after_node)
    × (lookup 7 w'.auction.exits ≡ some (record exit_seven { status = Status.settled }))
unfolding lookup ◌*ℤ◌ ◌+ℤ◌ fits
accept_bid_succeeds_example =
    accept_bid_succeeds 103 (by 3 103 4100) calm calm-IsWired calm-IsConsistent refl 7 exit_seven
      world_seven refl 1 node_one calm-IsFunded refl refl (omega arith) refl refl refl refl refl
      sale-Delivers
