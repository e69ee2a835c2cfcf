-- ===== src/Tests/Sale.antt =====
-- Exit 7 of the fixture, which is live with a bid of 100, and what holds of it.
use stellar_exit_contracts.Tests.Fixture.{world}
use stellar_exit_contracts.Auction.Exits.{IsFair, IsSound}
use stellar_exit_contracts.Auction.Pledges.{IsPledged}
use stellar_exit_contracts.Auction.Custody.{IsHeld, held_for, escrow_of}
use stellar_exit_contracts.State.Auction.{Exit, Status}
use stellar_exit_contracts.Prelude.{ℕ, ◌≡◌, inr, refl, sym, subst, some, arith}
use stellar_exit_contracts.Prelude.Int.{pos}
use stellar_exit_contracts.Prelude.Dict.{total, lookup}

abbrev pub exit_seven : Exit
exit_seven = record {
  id = 7;
  seller = 3;
  asset = 20;
  amount = pos 40;
  reference_usdc = pos 120;
  min_accept_usdc = pos 90;
  opened_at = 4000;
  closes_at = 4300;
  status = Status.taking_bids;
  best_node = some 1;
  best_usdc = pos 100;
}

pub world_seven : lookup 7 world.auction.exits ≡ some exit_seven
unfolding lookup
world_seven = refl

pub only_seven :
    (i : ℕ) (x : Exit) → lookup i world.auction.exits ≡ some x → (i ≡ 7) × (x ≡ exit_seven)
unfolding lookup
only_seven i x h = ground arith

seven-IsFair : IsFair 8 7 exit_seven
seven-IsFair = record {
  own_id = refl;
  issued = omega arith;
  amount_positive = omega arith;
  reference_positive = omega arith;
  reserve_nonneg = omega arith;
  long_enough = omega arith;
  short_enough = omega arith;
  bid = inr (1, refl, omega arith);
}

pub world-IsSound : IsSound world
world-IsSound = record {
  fair = λ i x h.
      let (key, same) = only_seven i x h in
      subst (λ k. IsFair 8 k x) (sym key) (subst (λ y. IsFair 8 7 y) (sym same) seven-IsFair);
  unopened = λ h. cc;
}

pub world-IsHeld : IsHeld world
unfolding lookup
world-IsHeld i x h =
    let (key, same) = only_seven i x h in
    subst (λ k. escrow_of k world ≡ held_for x) (sym key)
      (subst (λ y. escrow_of 7 world ≡ held_for y) (sym same) refl)

pub world-IsPledged : IsPledged world
unfolding lookup total
world-IsPledged node = ground arith
