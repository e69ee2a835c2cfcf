-- ===== src/Auction/Life/Calls.antt =====
-- How far one call of contracts/exit_auction/src/lib.rs moves each of the stored exits.
use stellar_exit_contracts.Auction.Life.{Moved, bids, lines_up, fills, cancels}
use stellar_exit_contracts.Auction.Exits.Calls.{set_admin_table, initialize_table}
use stellar_exit_contracts.Auction.Exits.{IsSound, same_exit, exits_of}
use stellar_exit_contracts.Auction.Operations.{Operation, perform, open_exit_answer}
use stellar_exit_contracts.Auction.Storage.{is_live}
use stellar_exit_contracts.Auction.Seller
use stellar_exit_contracts.Auction.Bids
use stellar_exit_contracts.Auction.Effects.Filling.{
  stored_exit, Filled, Filled-auction, accept_bid-Accepted,
}
use stellar_exit_contracts.Auction.Frame.{queue_enqueue-Entered}
use stellar_exit_contracts.Queue.Calls.{line}
use stellar_exit_contracts.Queue.Line.{contains-push}
use stellar_exit_contracts.Prelude.Lists.{contains}
use stellar_exit_contracts.Auction.Effects.Closing.{Lined, Lined-auction, close-Closed}
use stellar_exit_contracts.Auction.Effects.Bidding.{outbid, place_bid-Bid, Bid-OutsideVault}
use stellar_exit_contracts.Auction.Effects.Selling.{
  opened, open_exit-Opened, Opened-auction, cancelled, cancel-Withdrawn, Withdrawn-auction,
}
use stellar_exit_contracts.State.Auction.{Exit, Status}
use stellar_exit_contracts.Host.Chain.{Address, Env, Chain, World}
use stellar_exit_contracts.Host.Call.{ok}
use stellar_exit_contracts.Prelude.{
  ℕ, ◌≡◌, refl, ap, ◌∙◌, subst, ◌⊎◌, inl, inr, Bool-cases, true, false, ◌==◌, ==→eq, ==_refl, some,
  Option, arith,
}
use stellar_exit_contracts.Prelude.Int.{ℤ}
use stellar_exit_contracts.Prelude.Dict.{lookup, insert, lookup-insert, lookup-insert_self}

module _ {c : Chain} where
  -- The exit is still there, and as it was or one transition further.
  abbrev pub Continues : ℕ → ℕ → Exit → World c → Type 0
  Continues now j x w' =
      (y : Exit) × (lookup j w'.auction.exits ≡ some y)
      × ((y ≡ x) ⊎ Moved now (line w' x.asset) x y)

  same_table :
      (now : ℕ) (w w' : World c) (j : ℕ) (x : Exit)
      → w'.auction.exits ≡ w.auction.exits
      → lookup j w.auction.exits ≡ some x
      → Continues now j x w'
  same_table now w w' j x exits stored = (x, rw exits stored, inl refl)

  other_stays :
      (now : ℕ) (w w' : World c) (i j : ℕ) (new x : Exit)
      → w'.auction.exits ≡ insert i new w.auction.exits
      → (i == j) ≡ false
      → lookup j w.auction.exits ≡ some x
      → Continues now j x w'
  other_stays now w w' i j new x exits apart stored =
      (x, rw exits (lookup-insert j i new w.auction.exits ∙ rw apart stored), inl refl)

  -- One exit moves, and the others stay.
  one_moves :
      (now : ℕ) (w w' : World c) (i j : ℕ) (exit new x : Exit)
      → lookup i w.auction.exits ≡ some exit
      → w'.auction.exits ≡ insert i new w.auction.exits
      → Moved now (line w' exit.asset) exit new
      → lookup j w.auction.exits ≡ some x
      → Continues now j x w'
  one_moves now w w' i j exit new x before exits m stored = elim (Bool-cases (i == j)) [
    | inr apart ↦ other_stays now w w' i j new x exits apart stored
    | inl here ↦
        let key = ==→eq i j here in
        (
          new,
          rw exits (
              subst (λ k. lookup k (insert i new w.auction.exits) ≡ some new) key
                (lookup-insert_self i new w.auction.exits)),
          inr (
              subst (λ (y : Exit). Moved now (line w' y.asset) y new)
                (same_exit i j exit x (w.auction.exits) key before stored) m),
        )
  ]

  -- Whoever enters the line stands in it.
  entered_line :
      (e : Env) (exit : Exit) (w w' : World c)
      → Lined e exit w w'
      → contains exit.id (line w' exit.asset) ≡ true
  entered_line e exit w w' l =
      let entered =
        queue_enqueue-Entered e l.config exit.id w l.entered exit.asset l.place l.to_queue in
      rw (l.result, entered.result)
        (ground (
          arith,
          ==_refl exit.asset,
          ==_refl exit.id,
          contains-push exit.id exit.id (line w exit.asset),
        ))

  module _ (e : Env) (w w' : World c) (s : IsSound w) (j : ℕ) (x : Exit)
      (stored : lookup j w.auction.exits ≡ some x) where
    -- The transition of the exit that the call is about, written back under its own id.
    own_moves :
        (i : ℕ) (exit new : Exit)
        → lookup i w.auction.exits ≡ some exit
        → new.id ≡ exit.id
        → w'.auction ≡ (stored_exit new w).auction
        → Moved e.timestamp (line w' exit.asset) exit new
        → Continues e.timestamp j x w'
    own_moves i exit new before own auction m =
        one_moves e.timestamp w w' i j exit new x before
          (ap exits_of auction
            ∙ ap (λ k. insert k new w.auction.exits) (own ∙ (s.fair i exit before).own_id))
          m stored

    Filled-Continues :
        (i : ℕ) (exit : Exit)
        → lookup i w.auction.exits ≡ some exit
        → is_live exit.status ≡ true
        → Filled e exit w w'
        → Continues e.timestamp j x w'
    Filled-Continues i exit before live f =
        own_moves i exit (record exit { status = Status.settled }) before refl (Filled-auction f)
          (fills f.node live f.bidder f.reserve_met refl)

    close-Continues : (i : ℕ) → Bids.close e i w ≡ ok (tt, w') → Continues e.timestamp j x w'
    close-Continues i h =
        let k = close-Closed e i w w' h in
        elim (k.outcome) [
          | inl (_, f) ↦ Filled-Continues i k.exit k.stored (ground (arith, k.taking)) f
          | inr (_, l) ↦
              own_moves i k.exit (record (k.exit) { status = Status.queued }) k.stored refl
                (Lined-auction l) (lines_up k.taking k.over (entered_line e k.exit w w' l) refl)
        ]

    accept_bid-Continues :
        (i : ℕ) → Seller.accept_bid e i w ≡ ok (tt, w') → Continues e.timestamp j x w'
    accept_bid-Continues i h =
        let a = accept_bid-Accepted e i w w' h in
        Filled-Continues i a.exit a.stored a.live a.filling

    place_bid-Continues :
        (node : Address) (i : ℕ) (usdc_amount : ℤ)
        → Bids.place_bid e node i usdc_amount w ≡ ok (tt, w')
        → Continues e.timestamp j x w'
    place_bid-Continues node i usdc_amount h =
        let b = place_bid-Bid e node i usdc_amount w w' h in
        own_moves i b.exit (outbid node usdc_amount b.exit) b.stored refl
          ((Bid-OutsideVault e node i usdc_amount b).0)
          (bids node usdc_amount b.live b.in_time b.positive b.higher refl)

    cancel-Continues : (i : ℕ) → Seller.cancel e i w ≡ ok (tt, w') → Continues e.timestamp j x w'
    cancel-Continues i h =
        let k = cancel-Withdrawn e i w w' h in
        own_moves i k.exit (cancelled k.exit) k.stored refl (Withdrawn-auction k)
          (cancels k.live refl)

    -- A new exit takes the place of none.
    open_exit-Continues :
        (seller asset : Address) (amount reference_usdc min_accept_usdc : ℤ) (duration : Option ℕ)
        (id : ℕ)
        → Seller.open_exit e seller asset amount reference_usdc min_accept_usdc duration w
          ≡ ok (id, w')
        → Continues e.timestamp j x w'
    open_exit-Continues seller asset amount reference_usdc min_accept_usdc duration id h =
        let o =
          open_exit-Opened e seller asset amount reference_usdc min_accept_usdc duration id w w'
            h in
        let f = s.fair j x stored in
        other_stays e.timestamp w w' id j
          (opened e seller asset amount reference_usdc min_accept_usdc duration id) x
          (ap exits_of
            (Opened-auction e seller asset amount reference_usdc min_accept_usdc duration o))
          (ground (arith, o.next, f.issued)) stored

  -- Whatever the auction is called with, a call that succeeds on a sound table leaves every stored
  -- exit in the table, and moves it by one transition of its life at most: a higher bid, which is
  -- not later than the window unless the exit waits already; a place in the line of its asset,
  -- which is later than the window; a fill at a bid that meets the reserve; or a cancellation, and
  -- each only while the exit is live.
  pub perform-Continues :
      (op : Operation) (e : Env) (w w' : World c) (j : ℕ) (x : Exit)
      → IsSound w
      → perform op e w ≡ ok (tt, w')
      → lookup j w.auction.exits ≡ some x
      → (y : Exit) × (lookup j w'.auction.exits ≡ some y)
        × ((y ≡ x) ⊎ Moved e.timestamp (line w' x.asset) x y)
  unfolding perform
  perform-Continues (Operation.initialize admin vault router queue) e w w' j x s h stored =
      same_table e.timestamp w w' j x (initialize_table e w w' s admin vault router queue h) stored
  perform-Continues (Operation.set_admin admin) e w w' j x s h stored =
      same_table e.timestamp w w' j x ((set_admin_table e w w' s admin h).0) stored
  perform-Continues
        (Operation.open_exit seller asset amount reference_usdc min_accept_usdc duration) e w w' j x
        s h stored =
      let (id, done) =
        open_exit_answer e seller asset amount reference_usdc min_accept_usdc duration w w' h in
      open_exit-Continues e w w' s j x stored seller asset amount reference_usdc min_accept_usdc
        duration id done
  perform-Continues (Operation.place_bid node i usdc_amount) e w w' j x s h stored =
      place_bid-Continues e w w' s j x stored node i usdc_amount h
  perform-Continues (Operation.accept_bid i) e w w' j x s h stored =
      accept_bid-Continues e w w' s j x stored i h
  perform-Continues (Operation.cancel i) e w w' j x s h stored =
      cancel-Continues e w w' s j x stored i h
  perform-Continues (Operation.close i) e w w' j x s h stored =
      close-Continues e w w' s j x stored i h
