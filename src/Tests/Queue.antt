-- ===== src/Tests/Queue.antt =====
-- The queue, run on the fixture, and its theorems there.
use stellar_exit_contracts.Tests.Fixture.{table_chain, from, world}
use stellar_exit_contracts.Queue.{enqueue, dequeue, head}
use stellar_exit_contracts.Queue.Line.{distinct, moved_up}
use stellar_exit_contracts.Queue.Calls.{line, IsOrderly, enqueue_positions, dequeue_positions}
use stellar_exit_contracts.Queue.Operations.{Operation, perform, perform-IsOrderly}
use stellar_exit_contracts.Queue.Order.{IsAhead, Stays, Stays-IsAhead}
use stellar_exit_contracts.Host.Chain.{Address, World}
use stellar_exit_contracts.Host.Call.{Result, ok, err}
use stellar_exit_contracts.Prelude.{ℕ, ◌≡◌, ◌≢◌, refl, some, none, arith}
use stellar_exit_contracts.Prelude.Lists.{length, contains, position, without}

abbrev after : {A : Type 0} → Result (A × World table_chain) → World table_chain
after (ok (_, w)) = w
after (err x) = world

head_of_line : head {c = table_chain} 21 world ≡ ok (some 4, world)
unfolding head
head_of_line = refl

abbrev longer : World table_chain
longer = after (enqueue (from 103 102 6000) 21 7 world)

abbrev shorter : World table_chain
shorter = after (dequeue (from 103 102 6000) 21 5 world)

world-IsOrderly : IsOrderly world
unfolding distinct
world-IsOrderly = record { bounded = λ t. ground arith; unrepeated = λ t. ground arith }

enqueue_positions_example :
    (3 ≡ length (line world 21))
    × (position 7 (line longer 21) ≡ some 3)
    × ((b : ℕ) → b ≢ 7 → position b (line longer 21) ≡ position b (line world 21))
    × ((other : Address) → other ≢ 21 → line longer other ≡ line world other)
unfolding enqueue contains
enqueue_positions_example = enqueue_positions (from 103 102 6000) 21 7 3 world _ refl

dequeue_positions_example :
    (position 5 (line shorter 21) ≡ none)
    × ((b : ℕ)
        → b ≢ 5
        → position b (line shorter 21)
          ≡ moved_up (position 5 (line world 21)) (position b (line world 21)))
    × ((other : Address) → other ≢ 21 → line shorter other ≡ line world other)
unfolding dequeue position without
dequeue_positions_example = dequeue_positions (from 103 102 6000) 21 5 world _ world-IsOrderly refl

abbrev leaving : Operation
leaving = Operation.dequeue 21 5

perform-IsOrderly_example : IsOrderly (after (perform leaving (from 103 102 6000) world))
unfolding perform dequeue position without
perform-IsOrderly_example =
    perform-IsOrderly (from 103 102 6000) world _ leaving world-IsOrderly refl

Stays-IsAhead_example : IsAhead 21 4 6 (after (perform leaving (from 103 102 6000) world))
unfolding perform dequeue position without
Stays-IsAhead_example =
    Stays-IsAhead 21 4 6 world-IsOrderly
      (record { place = 0; behind = 2; first = refl; second = refl; order = omega arith })
      (Stays.next leaving (from 103 102 6000) Stays.here
        ((λ h. omega (arith, h.1)), (λ h. omega (arith, h.1))) refl)
