-- ===== src/Tests/Auction.antt =====
-- The auction, run on the fixture, and its theorems there.
use stellar_exit_contracts.Tests.Fixture.{table_chain, by, world, terms_one}
use stellar_exit_contracts.Tests.Sale.{
  exit_seven, world_seven, world-IsSound, world-IsHeld, world-IsPledged,
}
use stellar_exit_contracts.Auction.Pledges.{IsPledged}
use stellar_exit_contracts.Auction.Pledges.Calls.{perform-IsPledged}
use stellar_exit_contracts.Auction.Seller.{accept_bid, cancel, set_admin}
use stellar_exit_contracts.Auction.Bids.{close, place_bid}
use stellar_exit_contracts.Auction.Storage.{fill, at_head, queue_head, router_settle}
use stellar_exit_contracts.Auction.Operations.{Operation, perform}
use stellar_exit_contracts.Auction.Exits.Calls.{perform-IsSound}
use stellar_exit_contracts.Auction.Exits.{IsSound}
use stellar_exit_contracts.Auction.Closing.{close_decides, accept_bid_in_turn, marked_down_sticks}
use stellar_exit_contracts.Auction.Custody.{IsHeld}
use stellar_exit_contracts.Auction.Custody.Calls.{perform-IsHeld}
use stellar_exit_contracts.Auction.Effects.Closing.{is_acceptable, is_in_turn}
use stellar_exit_contracts.Auction.Life.{Moved, terms}
use stellar_exit_contracts.Auction.Life.Calls.{perform-Continues}
use stellar_exit_contracts.Auction.Life.History.{Reach, closed_forever, settled_at_best}
use stellar_exit_contracts.Queue
use stellar_exit_contracts.Queue.Calls.{line}
use stellar_exit_contracts.Router.{settle, vault_pay_out, pay_fee, split_fee, put_remaining}
use stellar_exit_contracts.Vault.Effects.{IsAuthorized}
use stellar_exit_contracts.Vault.Hooks.{pay_out}
use stellar_exit_contracts.State.Auction.{Exit, Status}
use stellar_exit_contracts.State.Vault.{Appetite}
use stellar_exit_contracts.Host.Chain.{Address, Env, World}
use stellar_exit_contracts.Host.Call.{Result, ok, err}
use stellar_exit_contracts.Prelude.{
  ◌<◌, ◌≡◌, ◌≢◌, ◌⊎◌, refl, some, true, false, ◌&&◌, ◌∷◌, ◌++◌, [], arith,
}
use stellar_exit_contracts.Prelude.Int.{ℤ, pos, ◌≤ℤ◌, ◌-ℤ◌, ◌+ℤ◌, ◌*ℤ◌, quot, fits}
use stellar_exit_contracts.Prelude.Dict.{lookup, insert, remove, update₂}

abbrev after : {A : Type 0} → Result (A × World table_chain) → World table_chain
after (ok (_, w)) = w
after (err x) = world

abbrev sold : Exit
sold = record exit_seven { status = Status.settled }

abbrev accepted : World table_chain
accepted = after (accept_bid (by 3 103 4100) 7 world)

accepting : accept_bid (by 3 103 4100) 7 world ≡ ok (tt, accepted)
unfolding accept_bid fill at_head queue_head router_settle Queue.head settle split_fee vault_pay_out
    pay_fee put_remaining pay_out lookup insert remove ◌-ℤ◌ ◌+ℤ◌ ◌*ℤ◌ quot fits
accepting = refl

accepted_seven : lookup 7 accepted.auction.exits ≡ some sold
unfolding accept_bid fill at_head queue_head router_settle Queue.head settle split_fee vault_pay_out
    pay_fee put_remaining pay_out lookup insert remove ◌-ℤ◌ ◌+ℤ◌ ◌*ℤ◌ quot fits
accepted_seven = refl

accepted-IsSound : IsSound accepted
unfolding perform
accepted-IsSound =
    perform-IsSound (Operation.accept_bid 7) (by 3 103 4100) world accepted world-IsSound accepting

perform-IsHeld_example : IsHeld accepted
unfolding perform
perform-IsHeld_example =
    perform-IsHeld (Operation.accept_bid 7) (by 3 103 4100) world accepted world-IsSound
      world-IsHeld accepting

perform-Continues_example :
    (y : Exit) × (lookup 7 accepted.auction.exits ≡ some y)
    × ((y ≡ exit_seven) ⊎ Moved 4100 (line accepted 20) exit_seven y)
unfolding perform
perform-Continues_example =
    perform-Continues (Operation.accept_bid 7) (by 3 103 4100) world accepted 7 exit_seven
      world-IsSound accepting world_seven

to_accepted : Reach world accepted
unfolding perform
to_accepted = Reach.call (Operation.accept_bid 7) (by 3 103 4100) Reach.here accepting

settled_at_best_example :
    (terms sold ≡ terms exit_seven)
    × ((node : Address) × (some 1 ≡ some node))
    × (pos 90 ≤ℤ pos 100)
    × (pos 100 ≤ℤ pos 100)
settled_at_best_example =
    settled_at_best 7 exit_seven sold world-IsSound to_accepted world_seven refl accepted_seven refl

-- A new administrator comes after the sale.
abbrev later : World table_chain
later = after (set_admin (by 9 103 7000) 4 accepted)

to_later : Reach accepted later
unfolding perform set_admin accept_bid fill at_head queue_head router_settle Queue.head settle
    split_fee vault_pay_out pay_fee put_remaining pay_out lookup insert remove ◌-ℤ◌ ◌+ℤ◌ ◌*ℤ◌ quot
    fits
to_later = Reach.call (Operation.set_admin 4) (by 9 103 7000) Reach.here refl

closed_forever_example : lookup 7 later.auction.exits ≡ some sold
closed_forever_example = closed_forever 7 sold accepted-IsSound to_later accepted_seven refl

accept_bid_in_turn_example :
    IsAuthorized (by 3 103 4100) 3
    × (pos 90 ≤ℤ pos 100)
    × (is_in_turn exit_seven world ≡ true)
    × (lookup 7 accepted.auction.exits ≡ some sold)
accept_bid_in_turn_example =
    accept_bid_in_turn (by 3 103 4100) 7 world accepted exit_seven world-IsSound accepting
      world_seven

abbrev closed : World table_chain
closed = after (close (by 5 103 4301) 7 world)

closing : close (by 5 103 4301) 7 world ≡ ok (tt, closed)
unfolding close fill at_head queue_head router_settle Queue.head settle split_fee vault_pay_out
    pay_fee put_remaining pay_out lookup insert remove ◌-ℤ◌ ◌+ℤ◌ ◌*ℤ◌ quot fits
closing = refl

perform-IsSound_example : IsSound closed
unfolding perform
perform-IsSound_example =
    perform-IsSound (Operation.close 7) (by 5 103 4301) world closed world-IsSound closing

close_decides_example :
    (4300 < 4301)
    × ((((is_acceptable exit_seven && is_in_turn exit_seven world) ≡ true)
          × (lookup 7 closed.auction.exits ≡ some sold))
        ⊎ (((is_acceptable exit_seven && is_in_turn exit_seven world) ≡ false)
            × (lookup 7 closed.auction.exits ≡ some (record exit_seven { status = Status.queued }))
            × (line closed 20 ≡ line world 20 ++ 7 ∷ [])))
close_decides_example =
    close_decides (by 5 103 4301) 7 world closed exit_seven world-IsSound closing world_seven

-- The bidder has marked its exposure down from 100 to 50.
abbrev marked : Appetite
marked = record terms_one { exposure = pos 50 }

abbrev marked_down : World table_chain
marked_down = record world {
  vault = record (world.vault) { appetites = update₂ 1 20 (some marked) world.vault.appetites };
}

marked_down_sticks_example :
    ((e : Env) (w' : World table_chain) → cancel e 7 marked_down ≢ ok (tt, w'))
    × ((e : Env) (node : Address) (usdc_amount : ℤ) (w' : World table_chain)
        → node ≢ 1
        → place_bid e node 7 usdc_amount marked_down ≢ ok (tt, w'))
marked_down_sticks_example =
    marked_down_sticks 7 marked_down exit_seven 1 marked world_seven refl refl (omega arith)

perform-IsPledged_example : IsPledged closed
unfolding perform
perform-IsPledged_example =
    perform-IsPledged (Operation.close 7) (by 5 103 4301) world closed world-IsSound world-IsPledged
      closing
