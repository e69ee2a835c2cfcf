-- ===== src/System/Funds/Auction.antt =====
-- Every call of contracts/exit_auction/src/lib.rs keeps the vault and the router funded.
use stellar_exit_contracts.System.Funds.{IsFunded, IsGuarded, kept-IsFunded}
use stellar_exit_contracts.System.Funds.Steps.{
  commit-IsFunded, release-IsFunded, dequeue-IsFunded, escrow-IsFunded, refund-IsFunded,
  settle-IsFunded,
}
use stellar_exit_contracts.Auction.Operations.{Operation, perform, open_exit_answer}
use stellar_exit_contracts.Auction.Storage.{is_queued}
use stellar_exit_contracts.Auction.Seller
use stellar_exit_contracts.Auction.Bids
use stellar_exit_contracts.Auction.Frame.{queue_enqueue-Entered}
use stellar_exit_contracts.Auction.Effects.Filling.{Filled, accept_bid-Accepted}
use stellar_exit_contracts.Auction.Effects.Closing.{close-Closed}
use stellar_exit_contracts.Auction.Effects.Bidding.{place_bid-Bid}
use stellar_exit_contracts.Auction.Effects.Selling.{counted, open_exit-Opened, cancel-Withdrawn}
use stellar_exit_contracts.State.Auction.{Exit}
use stellar_exit_contracts.Host.Chain.{Address, Env, Chain, World, Sep41}
use stellar_exit_contracts.Host.Call.{ok}
use stellar_exit_contracts.Prelude.{ℕ, ◌≡◌, refl, inl, inr, Option, arith}
use stellar_exit_contracts.Prelude.Int.{ℤ}

module _ {c : Chain} (law : Sep41 c) (e : Env) (g : IsGuarded c e.current e) (w w' : World c)
    (k : IsFunded w) where
  -- The auction's own storage and the events that it publishes hold no tokens.
  stored-IsFunded :
      (u : World c)
      → IsFunded u
      → (w'.vault ≡ u.vault) × (w'.router ≡ u.router) × (w'.ledger ≡ u.ledger)
      → IsFunded w'
  stored-IsFunded u f (vault, router, ledger) = kept-IsFunded f vault router ledger

  Filled-IsFunded : (exit : Exit) → Filled e exit w w' → IsFunded w'
  Filled-IsFunded exit f =
      let settled =
        settle-IsFunded law e g f.config exit.id w f.settled k f.node exit.amount exit.best_usdc
          f.to_router in
      let left =
        dequeue-IsFunded e f.config f.settled f.left settled (is_queued exit.status) exit
          f.to_queue in
      stored-IsFunded f.left left (rw (f.result) (refl, refl, refl))

  accept_bid-IsFunded : (i : ℕ) → Seller.accept_bid e i w ≡ ok (tt, w') → IsFunded w'
  accept_bid-IsFunded i h =
      let a = accept_bid-Accepted e i w w' h in Filled-IsFunded a.exit a.filling

  close-IsFunded : (i : ℕ) → Bids.close e i w ≡ ok (tt, w') → IsFunded w'
  close-IsFunded i h =
      let d = close-Closed e i w w' h in
      elim (d.outcome) [
        | inl (_, f) ↦ Filled-IsFunded d.exit f
        | inr (_, l) ↦
            let entered =
              queue_enqueue-Entered e l.config d.exit.id w l.entered d.exit.asset l.place
                l.to_queue in
            stored-IsFunded w k (rw (l.result, entered.result) (refl, refl, refl))
      ]

  place_bid-IsFunded :
      (node : Address) (i : ℕ) (usdc_amount : ℤ)
      → Bids.place_bid e node i usdc_amount w ≡ ok (tt, w')
      → IsFunded w'
  place_bid-IsFunded node i usdc_amount h =
      let b = place_bid-Bid e node i usdc_amount w w' h in
      let covered =
        commit-IsFunded e b.config w b.covered k node b.exit.asset usdc_amount _ b.to_cover in
      let freed =
        release-IsFunded e b.config b.covered b.freed covered b.exit.best_node b.exit b.to_free in
      stored-IsFunded b.freed freed (rw (b.result) (refl, refl, refl))

  cancel-IsFunded : (i : ℕ) → Seller.cancel e i w ≡ ok (tt, w') → IsFunded w'
  cancel-IsFunded i h =
      let x = cancel-Withdrawn e i w w' h in
      let freed = release-IsFunded e x.config w x.freed k x.exit.best_node x.exit x.to_free in
      let left =
        dequeue-IsFunded e x.config x.freed x.left freed (is_queued x.exit.status) x.exit
          x.to_queue in
      let refunded =
        refund-IsFunded law e g x.config x.exit.id x.left x.refunded left x.to_router in
      stored-IsFunded x.refunded refunded (rw (x.result) (refl, refl, refl))

  open_exit-IsFunded :
      (seller asset : Address) (amount reference_usdc min_accept_usdc : ℤ) (duration : Option ℕ)
      (id : ℕ)
      → Seller.open_exit e seller asset amount reference_usdc min_accept_usdc duration w
        ≡ ok (id, w')
      → IsFunded w'
  open_exit-IsFunded seller asset amount reference_usdc min_accept_usdc duration id h =
      let o =
        open_exit-Opened e seller asset amount reference_usdc min_accept_usdc duration id w w' h in
      let escrowed =
        escrow-IsFunded law e g o.config id (counted w) o.escrowed (kept-IsFunded k refl refl refl)
          seller asset amount o.to_router in
      stored-IsFunded o.escrowed escrowed (rw (o.result) (refl, refl, refl))

  initialize-IsFunded :
      (admin vault router queue : Address)
      → Seller.initialize e admin vault router queue w ≡ ok (tt, w')
      → IsFunded w'
  unfolding Seller.initialize
  initialize-IsFunded admin vault router queue h =
      stored-IsFunded w k (ground arith, ground arith, ground arith)

  set_admin-IsFunded : (admin : Address) → Seller.set_admin e admin w ≡ ok (tt, w') → IsFunded w'
  unfolding Seller.set_admin
  set_admin-IsFunded admin h = stored-IsFunded w k (ground arith, ground arith, ground arith)

pub perform-IsFunded :
    {c : Chain} (law : Sep41 c) (op : Operation) (e : Env) (g : IsGuarded c e.current e)
    (w w' : World c)
    → IsFunded w
    → perform op e w ≡ ok (tt, w')
    → IsFunded w'
unfolding perform
perform-IsFunded law (Operation.initialize admin vault router queue) e g w w' k h =
    initialize-IsFunded law e g w w' k admin vault router queue h
perform-IsFunded law (Operation.set_admin admin) e g w w' k h =
    set_admin-IsFunded law e g w w' k admin h
perform-IsFunded law
      (Operation.open_exit seller asset amount reference_usdc min_accept_usdc duration) e g w w' k
      h =
    let (id, done) =
      open_exit_answer e seller asset amount reference_usdc min_accept_usdc duration w w' h in
    open_exit-IsFunded law e g w w' k seller asset amount reference_usdc min_accept_usdc duration id
      done
perform-IsFunded law (Operation.place_bid node i usdc_amount) e g w w' k h =
    place_bid-IsFunded law e g w w' k node i usdc_amount h
perform-IsFunded law (Operation.accept_bid i) e g w w' k h = accept_bid-IsFunded law e g w w' k i h
perform-IsFunded law (Operation.cancel i) e g w w' k h = cancel-IsFunded law e g w w' k i h
perform-IsFunded law (Operation.close i) e g w w' k h = close-IsFunded law e g w w' k i h
