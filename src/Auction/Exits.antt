-- ===== src/Auction/Exits.antt =====
-- The table of exits of contracts/exit_auction/src/lib.rs, and what holds of every record in it.
pub mod Calls
use stellar_exit_contracts.Auction.Operations.{Operation, perform, open_exit_answer}
use stellar_exit_contracts.Auction.Seller
use stellar_exit_contracts.Auction.Bids
use stellar_exit_contracts.Auction.Effects.Filling.{
  stored_exit, Filled, Filled-auction, accept_bid-Accepted,
}
use stellar_exit_contracts.Auction.Effects.Closing.{Lined-auction, close-Closed}
use stellar_exit_contracts.Auction.Effects.Bidding.{outbid, place_bid-Bid, Bid-OutsideVault}
use stellar_exit_contracts.Auction.Effects.Selling.{
  fresh_id, opened, open_exit-Opened, Opened-auction, cancelled, cancel-Withdrawn,
  Withdrawn-auction,
}
use stellar_exit_contracts.State.Auction.{Config, Exit, Status, min_duration, max_duration}
use stellar_exit_contracts.State.Auction as AuctionState
use stellar_exit_contracts.Host.Chain.{Address, Env, Chain, World}
use stellar_exit_contracts.Host.Call.{ok}
use stellar_exit_contracts.Prelude.{
  ℕ, ◌+◌, ◌≤◌, ◌<◌, ◌≡◌, refl, sym, ap, subst, ◌∙◌, ◌⊎◌, inl, inr, some, none, [], Option, arith,
  Option-cases,
}
use stellar_exit_contracts.Prelude.Int.{ℤ, pos, ◌≤ℤ◌, ◌<ℤ◌}
use stellar_exit_contracts.Prelude.Dict.{Dict, lookup, insert, found_after_insert}

abbrev pub exits_of : AuctionState.Storage → Dict Exit
exits_of a = a.exits

-- A record of the table, at its key, while ids below `next` have been given out.
pub record IsFair (next i : ℕ) (exit : Exit) : Type 0 where
  pub own_id : exit.id ≡ i
  pub issued : i < next
  pub amount_positive : pos 0 <ℤ exit.amount
  pub reference_positive : pos 0 <ℤ exit.reference_usdc
  pub reserve_nonneg : pos 0 ≤ℤ exit.min_accept_usdc
  pub long_enough : exit.opened_at + min_duration ≤ exit.closes_at
  pub short_enough : exit.closes_at ≤ exit.opened_at + max_duration
  pub bid :
      ((exit.best_node ≡ none) × (exit.best_usdc ≡ pos 0))
      ⊎ ((node : Address) × (exit.best_node ≡ some node) × (pos 0 <ℤ exit.best_usdc))

pub same_exit :
    (i j : ℕ) (exit x : Exit) (exits : Dict Exit)
    → i ≡ j
    → lookup i exits ≡ some exit
    → lookup j exits ≡ some x
    → exit ≡ x
same_exit i j exit x exits key before stored = ground (arith, key, before, stored)

IsFair-later : {n m i : ℕ} {exit : Exit} → n ≤ m → IsFair n i exit → IsFair m i exit
IsFair-later le f = record {
  own_id = f.own_id;
  issued = omega (arith, le, f.issued);
  amount_positive = f.amount_positive;
  reference_positive = f.reference_positive;
  reserve_nonneg = f.reserve_nonneg;
  long_enough = f.long_enough;
  short_enough = f.short_enough;
  bid = f.bid;
}

-- Its status does not matter.
pub IsFair-status :
    {n i : ℕ} {exit : Exit} (status : Status)
    → IsFair n i exit
    → IsFair n exit.id (record exit { status = status })
IsFair-status status f = record {
  own_id = refl;
  issued = rw (f.own_id) f.issued;
  amount_positive = f.amount_positive;
  reference_positive = f.reference_positive;
  reserve_nonneg = f.reserve_nonneg;
  long_enough = f.long_enough;
  short_enough = f.short_enough;
  bid = f.bid;
}

-- Nor does its bid, if it is none or a positive one.
pub IsFair-bid :
    {n i : ℕ} {exit : Exit} (best_node : Option Address) (best_usdc : ℤ)
    → ((best_node ≡ none) × (best_usdc ≡ pos 0))
      ⊎ ((node : Address) × (best_node ≡ some node) × (pos 0 <ℤ best_usdc))
    → IsFair n i exit
    → IsFair n exit.id (record exit { best_node = best_node; best_usdc = best_usdc })
IsFair-bid best_node best_usdc bid f = record {
  own_id = refl;
  issued = rw (f.own_id) f.issued;
  amount_positive = f.amount_positive;
  reference_positive = f.reference_positive;
  reserve_nonneg = f.reserve_nonneg;
  long_enough = f.long_enough;
  short_enough = f.short_enough;
  bid = bid;
}

module _ {c : Chain} where
  -- Every record is fair, and there is none before the contract is initialised.
  pub record IsSound (w : World c) : Type 0 where
    pub fair :
        (i : ℕ) (exit : Exit) → lookup i w.auction.exits ≡ some exit → IsFair (fresh_id w) i exit
    pub unopened : w.auction.config ≡ none → w.auction.exits ≡ []

  pub store-IsSound :
      (w w' : World c) (exit : Exit) (config : Config)
      → IsSound w
      → w'.auction.exits ≡ insert exit.id exit w.auction.exits
      → w'.auction.config ≡ some config
      → fresh_id w ≤ fresh_id w'
      → IsFair (fresh_id w') exit.id exit
      → IsSound w'
  store-IsSound w w' exit config s exits configured later f = record {
    fair = λ i x h. elim (found_after_insert i exit.id exit x w.auction.exits (rw (sym exits) h)) [
      | inl (key, same) ↦
          subst (λ k. IsFair (fresh_id w') k x) key
            (subst (λ y. IsFair (fresh_id w') exit.id y) same f)
      | inr before ↦ IsFair-later later (s.fair i x before)
    ];
    unopened = λ h. absurd (ground (arith, configured, h));
  }

  -- An exit that is live, with another bid or status, and nothing else of it changed.
  pub kept-IsSound :
      (w w' : World c) (i : ℕ) (exit new : Exit) (config : Config)
      → IsSound w
      → lookup i w.auction.exits ≡ some exit
      → w.auction.config ≡ some config
      → w'.auction ≡ (stored_exit new w).auction
      → IsFair (fresh_id w) new.id new
      → IsSound w'
  kept-IsSound w w' i exit new config s stored configured auction f =
      store-IsSound w w' new config s (ap exits_of auction)
        (ap (λ (a : AuctionState.Storage). a.config) auction ∙ configured)
        (rw auction (omega arith)) (rw auction f)

  -- A stored exit is found under its own id.
  pub own_record :
      (w : World c) (i : ℕ) (exit : Exit)
      → IsSound w
      → lookup i w.auction.exits ≡ some exit
      → lookup exit.id w.auction.exits ≡ some exit
  own_record w i exit s stored =
      subst (λ k. lookup k w.auction.exits ≡ some exit) (sym ((s.fair i exit stored).own_id)) stored

  -- A new id has no exit yet.
  pub unused :
      (w : World c) (id : ℕ) → IsSound w → id ≡ fresh_id w → lookup id w.auction.exits ≡ none
  unused w id s fresh = elim (Option-cases (lookup id w.auction.exits)) [
    | inl nothing ↦ nothing
    | inr (x, found) ↦ absurd (omega (arith, fresh, (s.fair id x found).issued))
  ]
