-- ===== src/Auction/Custody/Calls.antt =====
-- Every call of contracts/exit_auction/src/lib.rs keeps one escrow record for each live exit.
use stellar_exit_contracts.Auction.Custody.{
  held_for, escrow_of, IsHeld, step-IsHeld, left_over-other, levied-router,
}
use stellar_exit_contracts.Auction.Exits.{IsSound, exits_of}
use stellar_exit_contracts.Auction.Operations.{Operation, perform, open_exit_answer}
use stellar_exit_contracts.Auction.Storage.{is_live, is_queued}
use stellar_exit_contracts.Auction.Seller
use stellar_exit_contracts.Auction.Bids
use stellar_exit_contracts.Auction.Frame.{
  release_prev-OutsideVault, router_settle-Settled, router_refund-Refunded, router_escrow-Escrowed,
  queue_enqueue-Entered,
}
use stellar_exit_contracts.Auction.Effects.Filling.{
  Filled, Filled-auction, accept_bid-Accepted, dequeue_if_queued-OutsideQueue,
}
use stellar_exit_contracts.Auction.Effects.Closing.{Lined-auction, close-Closed}
use stellar_exit_contracts.Auction.Effects.Bidding.{outbid, place_bid-Bid, Bid-OutsideVault}
use stellar_exit_contracts.Auction.Effects.Selling.{
  counted, opened, open_exit-Opened, Opened-auction, cancelled, cancel-Withdrawn, Withdrawn,
  Withdrawn-auction,
}
use stellar_exit_contracts.Router.Once.{removed}
use stellar_exit_contracts.State.Router.{Escrow}
use stellar_exit_contracts.State.Router as RouterState
use stellar_exit_contracts.State.Auction.{Exit, Status}
use stellar_exit_contracts.Host.Chain.{Address, Env, Chain, World}
use stellar_exit_contracts.Host.Call.{ok}
use stellar_exit_contracts.Prelude.{
  ℕ, ◌≡◌, refl, sym, ap, subst, ◌∙◌, inl, inr, Option, some, none, true, false, ◌==◌, arith,
  ==_refl,
}
use stellar_exit_contracts.Prelude.Int.{ℤ, ◌-ℤ◌}
use stellar_exit_contracts.Prelude.Dict.{
  lookup, insert, remove, lookup-insert, lookup-insert_self, lookup-remove,
}

module _ {c : Chain} where
  -- A fill draws the whole record of the exit, and no other.
  Filled-escrow :
      {e : Env} {exit : Exit} {w w' : World c}
      → Filled e exit w w'
      → is_live exit.status ≡ true
      → escrow_of exit.id w ≡ held_for exit
      → (escrow_of exit.id w' ≡ none)
        × ((j : ℕ) → (exit.id == j) ≡ false → escrow_of j w' ≡ escrow_of j w)
  Filled-escrow {e} {exit} {w} {w'} f live held =
      let t =
        router_settle-Settled e f.config exit.id w f.settled f.node exit.amount exit.best_usdc
          f.to_router in
      let q =
        dequeue_if_queued-OutsideQueue (is_queued exit.status) e f.config exit f.settled f.left
          f.to_queue in
      let router = ap (λ (u : World c). u.router) f.result ∙ q.router ∙ t.router in
      (
        ap (λ (r : RouterState.Storage). lookup exit.id r.escrows) router
            ∙ removed exit.id t.held exit.amount _ (ground (arith, live, held, t.stored)),
        λ j apart.
            ap (λ (r : RouterState.Storage). lookup j r.escrows) router
            ∙ left_over-other exit.id j t.held (t.held.amount -ℤ exit.amount)
                (record (t.levied) { ledger = t.ledger }) apart
            ∙ ap (λ (r : RouterState.Storage). lookup j r.escrows) (levied-router t),
      )

  module _ (e : Env) (w w' : World c) (s : IsSound w) (held : IsHeld w) where
    -- What the router holds for a stored exit, under the exit's own id.
    own_held :
        (i : ℕ) (exit : Exit)
        → lookup i w.auction.exits ≡ some exit
        → escrow_of exit.id w ≡ held_for exit
    own_held i exit stored =
        subst (λ k. escrow_of k w ≡ held_for exit) (sym ((s.fair i exit stored).own_id))
          (held i exit stored)

    Filled-IsHeld :
        (i : ℕ) (exit : Exit)
        → lookup i w.auction.exits ≡ some exit
        → is_live exit.status ≡ true
        → Filled e exit w w'
        → IsHeld w'
    Filled-IsHeld i exit stored live f =
        let drawn = Filled-escrow f live (own_held i exit stored) in
        step-IsHeld w w' exit.id (record exit { status = Status.settled }) held
          (ap exits_of (Filled-auction f)) (drawn.1) (drawn.0)

    -- A live exit that stays live on its terms, while the router does nothing.
    same_escrow-IsHeld :
        (i : ℕ) (exit new : Exit)
        → lookup i w.auction.exits ≡ some exit
        → new.id ≡ exit.id
        → held_for new ≡ held_for exit
        → w'.auction.exits ≡ insert new.id new w.auction.exits
        → w'.router ≡ w.router
        → IsHeld w'
    same_escrow-IsHeld i exit new stored own same exits router =
        step-IsHeld w w' new.id new held exits (λ j apart. rw router refl)
          (rw router (rw own (own_held i exit stored ∙ sym same)))

    close-IsHeld : (i : ℕ) → Bids.close e i w ≡ ok (tt, w') → IsHeld w'
    close-IsHeld i h =
        let k = close-Closed e i w w' h in
        elim (k.outcome) [
          | inl (_, f) ↦ Filled-IsHeld i k.exit k.stored (ground (arith, k.taking)) f
          | inr (_, l) ↦
              same_escrow-IsHeld i k.exit (record (k.exit) { status = Status.queued }) k.stored refl
                (ground (arith, k.taking)) (ap exits_of (Lined-auction l))
                (rw
                  (
                    l.result,
                    (queue_enqueue-Entered e l.config k.exit.id w l.entered k.exit.asset l.place
                        l.to_queue).result,
                  )
                  refl)
        ]

    accept_bid-IsHeld : (i : ℕ) → Seller.accept_bid e i w ≡ ok (tt, w') → IsHeld w'
    accept_bid-IsHeld i h =
        let a = accept_bid-Accepted e i w w' h in Filled-IsHeld i a.exit a.stored a.live a.filling

    place_bid-IsHeld :
        (node : Address) (i : ℕ) (usdc_amount : ℤ)
        → Bids.place_bid e node i usdc_amount w ≡ ok (tt, w')
        → IsHeld w'
    place_bid-IsHeld node i usdc_amount h =
        let b = place_bid-Bid e node i usdc_amount w w' h in
        let (auction, router, queue) = Bid-OutsideVault e node i usdc_amount b in
        same_escrow-IsHeld i b.exit (outbid node usdc_amount b.exit) b.stored refl refl
          (ap exits_of auction) router

    -- A cancelled exit has its record taken out.
    Withdrawn-router :
        (i : ℕ)
        → (k : Withdrawn e i w w')
        → w'.router ≡ record (w.router) { escrows = remove k.exit.id w.router.escrows }
    Withdrawn-router i k =
        let v = release_prev-OutsideVault k.exit.best_node e k.config k.exit w k.freed k.to_free in
        let q =
          dequeue_if_queued-OutsideQueue (is_queued k.exit.status) e k.config k.exit k.freed k.left
            k.to_queue in
        let r = router_refund-Refunded e k.config k.exit.id k.left k.refunded k.to_router in
        rw (k.result, r.result, q.router, v.router) refl

    cancel-IsHeld : (i : ℕ) → Seller.cancel e i w ≡ ok (tt, w') → IsHeld w'
    cancel-IsHeld i h =
        let k = cancel-Withdrawn e i w w' h in
        let router = Withdrawn-router i k in
        step-IsHeld w w' k.exit.id (cancelled k.exit) held (ap exits_of (Withdrawn-auction k))
          (λ j apart. rw router (lookup-remove j k.exit.id w.router.escrows ∙ rw apart refl))
          (rw router
            (lookup-remove k.exit.id k.exit.id w.router.escrows ∙ rw (==_refl k.exit.id) refl))

    open_exit-IsHeld :
        (seller asset : Address) (amount reference_usdc min_accept_usdc : ℤ) (duration : Option ℕ)
        (id : ℕ)
        → Seller.open_exit e seller asset amount reference_usdc min_accept_usdc duration w
          ≡ ok (id, w')
        → IsHeld w'
    open_exit-IsHeld seller asset amount reference_usdc min_accept_usdc duration id h =
        let o =
          open_exit-Opened e seller asset amount reference_usdc min_accept_usdc duration id w w'
            h in
        let x =
          router_escrow-Escrowed e o.config id (counted w) o.escrowed seller asset amount
            o.to_router in
        step-IsHeld w w' id
          (opened e seller asset amount reference_usdc min_accept_usdc duration id) held
          (ap exits_of
            (Opened-auction e seller asset amount reference_usdc min_accept_usdc duration o))
          (λ j apart.
            rw (o.result, x.result)
              (lookup-insert j id (record { seller = seller; asset = asset; amount = amount })
                  w.router.escrows
                ∙ rw apart refl))
          (rw (o.result, x.result)
            (lookup-insert_self id (record { seller = seller; asset = asset; amount = amount })
              w.router.escrows))

    same_table-IsHeld : w'.auction.exits ≡ w.auction.exits → w'.router ≡ w.router → IsHeld w'
    same_table-IsHeld exits router i x stored = rw router (held i x (rw (sym exits) stored))

    initialize-IsHeld :
        (admin vault router queue : Address)
        → Seller.initialize e admin vault router queue w ≡ ok (tt, w')
        → IsHeld w'
    unfolding Seller.initialize
    initialize-IsHeld admin vault router queue h = same_table-IsHeld (ground arith) (ground arith)

    set_admin-IsHeld : (admin : Address) → Seller.set_admin e admin w ≡ ok (tt, w') → IsHeld w'
    unfolding Seller.set_admin
    set_admin-IsHeld admin h = same_table-IsHeld (ground arith) (ground arith)

  -- Every call of the auction that succeeds on a sound table keeps the router holding exactly the
  -- size of each live exit, for its seller and in its asset, and nothing for a settled or cancelled
  -- one.
  pub perform-IsHeld :
      (op : Operation) (e : Env) (w w' : World c)
      → IsSound w
      → IsHeld w
      → perform op e w ≡ ok (tt, w')
      → IsHeld w'
  unfolding perform
  perform-IsHeld (Operation.initialize admin vault router queue) e w w' s held h =
      initialize-IsHeld e w w' s held admin vault router queue h
  perform-IsHeld (Operation.set_admin admin) e w w' s held h =
      set_admin-IsHeld e w w' s held admin h
  perform-IsHeld (Operation.open_exit seller asset amount reference_usdc min_accept_usdc duration) e
        w w' s held h =
      let (id, done) =
        open_exit_answer e seller asset amount reference_usdc min_accept_usdc duration w w' h in
      open_exit-IsHeld e w w' s held seller asset amount reference_usdc min_accept_usdc duration id
        done
  perform-IsHeld (Operation.place_bid node i usdc_amount) e w w' s held h =
      place_bid-IsHeld e w w' s held node i usdc_amount h
  perform-IsHeld (Operation.accept_bid i) e w w' s held h = accept_bid-IsHeld e w w' s held i h
  perform-IsHeld (Operation.cancel i) e w w' s held h = cancel-IsHeld e w w' s held i h
  perform-IsHeld (Operation.close i) e w w' s held h = close-IsHeld e w w' s held i h
