-- ===== src/Tests/Waiting.antt =====
-- The auction with a line, run on the fixture, and the theorem on who stands in it.
use stellar_exit_contracts.Tests.Fixture.{table_chain, by, world}
use stellar_exit_contracts.Auction.Bids.{close}
use stellar_exit_contracts.Auction.Operations.{Operation, perform}
use stellar_exit_contracts.Auction.Exits.{IsFair, IsSound}
use stellar_exit_contracts.Auction.Waiting.{IsLined}
use stellar_exit_contracts.Auction.Waiting.Calls.{perform-IsLined}
use stellar_exit_contracts.Auction.Storage.{queue_enqueue}
use stellar_exit_contracts.Queue.{enqueue}
use stellar_exit_contracts.Queue.Calls.{IsOrderly}
use stellar_exit_contracts.Queue.Line.{distinct}
use stellar_exit_contracts.State.Auction.{Exit, Status}
use stellar_exit_contracts.Host.Chain.{World}
use stellar_exit_contracts.Host.Call.{Result, ok, err}
use stellar_exit_contracts.Prelude.{ℕ, ◌≡◌, refl, sym, subst, some, none, inr, ◌∷◌, [], arith}
use stellar_exit_contracts.Prelude.Int.{pos}
use stellar_exit_contracts.Prelude.Lists.{contains}
use stellar_exit_contracts.Prelude.Dict.{lookup, insert}

abbrev after : {A : Type 0} → Result (A × World table_chain) → World table_chain
after (ok (_, w)) = w
after (err x) = world

-- Its best bid of 100 is below its reserve of 110.
abbrev dear : Exit
dear = record {
  id = 7;
  seller = 3;
  asset = 20;
  amount = pos 40;
  reference_usdc = pos 120;
  min_accept_usdc = pos 110;
  opened_at = 4000;
  closes_at = 4300;
  status = Status.taking_bids;
  best_node = some 1;
  best_usdc = pos 100;
}

abbrev dear_world : World table_chain
dear_world = record world {
  queue = record (world.queue) { queues = λ asset. none };
  auction = record (world.auction) { exits = (7, dear) ∷ [] };
}

abbrev lined_up : World table_chain
lined_up = after (close (by 5 103 4301) 7 dear_world)

lining_up : close (by 5 103 4301) 7 dear_world ≡ ok (tt, lined_up)
unfolding close queue_enqueue enqueue lookup insert contains
lining_up = refl

dear-IsFair : IsFair 8 7 dear
dear-IsFair = record {
  own_id = refl;
  issued = omega arith;
  amount_positive = omega arith;
  reference_positive = omega arith;
  reserve_nonneg = omega arith;
  long_enough = omega arith;
  short_enough = omega arith;
  bid = inr (1, refl, omega arith);
}

only_dear : (i : ℕ) (x : Exit) → lookup i dear_world.auction.exits ≡ some x → (i ≡ 7) × (x ≡ dear)
unfolding lookup
only_dear i x h = ground arith

dear_world-IsSound : IsSound dear_world
dear_world-IsSound = record {
  fair = λ i x h.
      let (key, same) = only_dear i x h in
      subst (λ k. IsFair 8 k x) (sym key) (subst (λ y. IsFair 8 7 y) (sym same) dear-IsFair);
  unopened = λ h. cc;
}

dear_world-IsOrderly : IsOrderly dear_world
unfolding distinct
dear_world-IsOrderly = record { bounded = λ asset. omega arith; unrepeated = λ asset. refl }

dear_world-IsLined : IsLined dear_world
unfolding contains
dear_world-IsLined = record {
  stands = λ asset i there. absurd (ground (arith, there));
  waits =
      λ i x h queued. let (key, same) = only_dear i x h in absurd (ground (arith, same, queued));
}

perform-IsLined_example : IsLined lined_up
unfolding perform
perform-IsLined_example =
    perform-IsLined (Operation.close 7) (by 5 103 4301) dear_world lined_up dear_world-IsSound
      dear_world-IsOrderly dear_world-IsLined lining_up
