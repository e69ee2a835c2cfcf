-- ===== src/Auction/Exits/Calls.antt =====
-- Every call of contracts/exit_auction/src/lib.rs keeps the table of exits sound.
use stellar_exit_contracts.Auction.Exits.{
  IsSound, IsFair-status, IsFair-bid, store-IsSound, kept-IsSound, exits_of,
}
use stellar_exit_contracts.Auction.Operations.{Operation, perform, open_exit_answer}
use stellar_exit_contracts.Auction.Seller
use stellar_exit_contracts.Auction.Bids
use stellar_exit_contracts.Auction.Effects.Filling.{Filled, Filled-auction, accept_bid-Accepted}
use stellar_exit_contracts.Auction.Effects.Closing.{Lined-auction, close-Closed}
use stellar_exit_contracts.Auction.Effects.Bidding.{outbid, place_bid-Bid, Bid-OutsideVault}
use stellar_exit_contracts.Auction.Effects.Selling.{
  opened, open_exit-Opened, Opened-auction, cancelled, cancel-Withdrawn, Withdrawn-auction,
}
use stellar_exit_contracts.State.Auction.{Config, Exit, Status, min_duration, max_duration}
use stellar_exit_contracts.State.Auction as AuctionState
use stellar_exit_contracts.Host.Chain.{Address, Env, Chain, World}
use stellar_exit_contracts.Host.Call.{ok}
use stellar_exit_contracts.Prelude.{
  ℕ, ◌≡◌, refl, sym, ap, ◌∙◌, inl, inr, some, none, Option, arith, Option-cases,
}
use stellar_exit_contracts.Prelude.Int.{ℤ, pos}
use stellar_exit_contracts.Prelude.Dict.{lookup}

module _ {c : Chain} (e : Env) (w w' : World c) (s : IsSound w) where
  Filled-IsSound :
      (i : ℕ) (exit : Exit) → lookup i w.auction.exits ≡ some exit → Filled e exit w w' → IsSound w'
  Filled-IsSound i exit stored f =
      kept-IsSound w w' i exit (record exit { status = Status.settled }) f.config s stored
        f.configured (Filled-auction f) (IsFair-status Status.settled (s.fair i exit stored))

  accept_bid-IsSound : (i : ℕ) → Seller.accept_bid e i w ≡ ok (tt, w') → IsSound w'
  accept_bid-IsSound i h =
      let a = accept_bid-Accepted e i w w' h in Filled-IsSound i a.exit a.stored a.filling

  close-IsSound : (i : ℕ) → Bids.close e i w ≡ ok (tt, w') → IsSound w'
  close-IsSound i h =
      let x = close-Closed e i w w' h in
      elim (x.outcome) [
        | inl (_, f) ↦ Filled-IsSound i x.exit x.stored f
        | inr (_, l) ↦
            kept-IsSound w w' i x.exit (record (x.exit) { status = Status.queued }) l.config s
              x.stored l.configured (Lined-auction l)
              (IsFair-status Status.queued (s.fair i x.exit x.stored))
      ]

  place_bid-IsSound :
      (node : Address) (i : ℕ) (usdc_amount : ℤ)
      → Bids.place_bid e node i usdc_amount w ≡ ok (tt, w')
      → IsSound w'
  place_bid-IsSound node i usdc_amount h =
      let b = place_bid-Bid e node i usdc_amount w w' h in
      kept-IsSound w w' i b.exit (outbid node usdc_amount b.exit) b.config s b.stored b.configured
        ((Bid-OutsideVault e node i usdc_amount b).0)
        (IsFair-bid (some node) usdc_amount (inr (node, refl, b.positive))
          (s.fair i b.exit b.stored))

  cancel-IsSound : (i : ℕ) → Seller.cancel e i w ≡ ok (tt, w') → IsSound w'
  cancel-IsSound i h =
      let x = cancel-Withdrawn e i w w' h in
      kept-IsSound w w' i x.exit (cancelled x.exit) x.config s x.stored x.configured
        (Withdrawn-auction x)
        (IsFair-status Status.cancelled
          (IsFair-bid none (pos 0) (inl (refl, refl)) (s.fair i x.exit x.stored)))

  open_exit-IsSound :
      (seller asset : Address) (amount reference_usdc min_accept_usdc : ℤ) (duration : Option ℕ)
      (id : ℕ)
      → Seller.open_exit e seller asset amount reference_usdc min_accept_usdc duration w
        ≡ ok (id, w')
      → IsSound w'
  open_exit-IsSound seller asset amount reference_usdc min_accept_usdc duration id h =
      let o =
        open_exit-Opened e seller asset amount reference_usdc min_accept_usdc duration id w w' h in
      let auction =
        Opened-auction e seller asset amount reference_usdc min_accept_usdc duration o in
      store-IsSound w w' (opened e seller asset amount reference_usdc min_accept_usdc duration id)
        o.config s (ap exits_of auction)
        (ap (λ (a : AuctionState.Storage). a.config) auction ∙ o.configured)
        (rw auction (omega arith))
        (record {
          own_id = refl;
          issued = rw auction (omega (arith, o.next));
          amount_positive = o.amount_positive;
          reference_positive = o.reference_positive;
          reserve_nonneg = o.reserve_nonneg;
          long_enough = omega (arith, o.long_enough);
          short_enough = omega (arith, o.short_enough);
          bid = inl (refl, refl);
        })

  pub initialize_table :
      (admin vault router queue : Address)
      → Seller.initialize e admin vault router queue w ≡ ok (tt, w')
      → w'.auction.exits ≡ w.auction.exits
  unfolding Seller.initialize
  initialize_table admin vault router queue h = ground arith

  initialize-IsSound :
      (admin vault router queue : Address)
      → Seller.initialize e admin vault router queue w ≡ ok (tt, w')
      → IsSound w'
  unfolding Seller.initialize lookup
  initialize-IsSound admin vault router queue h = elim (Option-cases w.auction.config) [
    | inr (config, configured) ↦ absurd (ground arith)
    | inl fresh ↦ record {
      fair = λ i x found. absurd (ground (arith, found, s.unopened fresh));
      unopened = λ missing. absurd (ground arith);
    }
  ]

  pub set_admin_table :
      (admin : Address)
      → Seller.set_admin e admin w ≡ ok (tt, w')
      → (w'.auction.exits ≡ w.auction.exits)
        × (w'.auction.next_id ≡ w.auction.next_id)
        × ((config : Config) × (w'.auction.config ≡ some config))
  unfolding Seller.set_admin
  set_admin_table admin h = elim (Option-cases w.auction.config) [
    | inl missing ↦ absurd (ground arith)
    | inr (config, configured) ↦
        (ground arith, ground arith, (record config { admin = admin }, ground arith))
  ]

  set_admin-IsSound : (admin : Address) → Seller.set_admin e admin w ≡ ok (tt, w') → IsSound w'
  set_admin-IsSound admin h =
      let (exits, next, config) = set_admin_table admin h in
      record {
        fair = λ i x found. rw next (s.fair i x (rw (sym exits) found));
        unopened = λ missing. absurd (ground (arith, config.1, missing));
      }

-- Every call of the auction that succeeds keeps every stored exit under the id that it was given,
-- with a positive size and reference, a reserve that is not negative, a window within the limits,
-- and either no bid and nothing offered, or a bidder and a positive offer.
pub perform-IsSound :
    {c : Chain} (op : Operation) (e : Env) (w w' : World c)
    → IsSound w
    → perform op e w ≡ ok (tt, w')
    → IsSound w'
unfolding perform
perform-IsSound (Operation.initialize admin vault router queue) e w w' s h =
    initialize-IsSound e w w' s admin vault router queue h
perform-IsSound (Operation.set_admin admin) e w w' s h = set_admin-IsSound e w w' s admin h
perform-IsSound (Operation.open_exit seller asset amount reference_usdc min_accept_usdc duration) e
      w w' s h =
    let (id, done) =
      open_exit_answer e seller asset amount reference_usdc min_accept_usdc duration w w' h in
    open_exit-IsSound e w w' s seller asset amount reference_usdc min_accept_usdc duration id done
perform-IsSound (Operation.place_bid node i usdc_amount) e w w' s h =
    place_bid-IsSound e w w' s node i usdc_amount h
perform-IsSound (Operation.accept_bid i) e w w' s h = accept_bid-IsSound e w w' s i h
perform-IsSound (Operation.cancel i) e w w' s h = cancel-IsSound e w w' s i h
perform-IsSound (Operation.close i) e w w' s h = close-IsSound e w w' s i h
