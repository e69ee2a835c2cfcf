-- ===== src/Auction/Backed/Calls.antt =====
-- Every call of contracts/exit_auction/src/lib.rs leaves each bidder with terms in the vault.
use stellar_exit_contracts.Auction.Backed.{
  HasTerms, KeepsTerms, insert-HasTerms, commit-KeepsTerms, release-KeepsTerms, settle-KeepsTerms,
}
use stellar_exit_contracts.Auction.Exits.{exits_of}
use stellar_exit_contracts.Auction.Operations.{Operation, perform, open_exit_answer}
use stellar_exit_contracts.Auction.Storage.{is_queued}
use stellar_exit_contracts.Auction.Seller
use stellar_exit_contracts.Auction.Bids
use stellar_exit_contracts.Auction.Frame.{
  router_refund-Refunded, router_escrow-Escrowed, queue_enqueue-Entered,
}
use stellar_exit_contracts.Auction.Effects.Filling.{
  Filled, Filled-auction, accept_bid-Accepted, dequeue_if_queued-OutsideQueue,
}
use stellar_exit_contracts.Auction.Effects.Closing.{Lined-auction, close-Closed}
use stellar_exit_contracts.Auction.Effects.Bidding.{outbid, place_bid-Bid, Bid-OutsideVault}
use stellar_exit_contracts.Auction.Effects.Selling.{
  counted, opened, open_exit-Opened, Opened-auction, cancelled, cancel-Withdrawn, Withdrawn-auction,
}
use stellar_exit_contracts.State.Auction.{Exit, Status}
use stellar_exit_contracts.Host.Chain.{Address, Env, Chain, World}
use stellar_exit_contracts.Host.Call.{ok}
use stellar_exit_contracts.Prelude.{ℕ, ◌≡◌, refl, ap, ◌∙◌, inl, inr, Option, some, arith}
use stellar_exit_contracts.Prelude.Int.{ℤ}
use stellar_exit_contracts.Prelude.Dict.{lookup, insert}

module _ {c : Chain} where
  same_vault-KeepsTerms : (w w' : World c) → w'.vault ≡ w.vault → KeepsTerms w w'
  same_vault-KeepsTerms w w' same node asset there = rw same there

module _ {c : Chain} (e : Env) (w w' : World c) (t : HasTerms w) where
  -- The exit keeps its bidder.
  kept-HasTerms :
      (i : ℕ) (exit new : Exit)
      → lookup i w.auction.exits ≡ some exit
      → KeepsTerms w w'
      → w'.auction.exits ≡ insert new.id new w.auction.exits
      → (new.best_node ≡ exit.best_node) × (new.asset ≡ exit.asset)
      → HasTerms w'
  kept-HasTerms i exit new stored keeps exits (bidder, asset) =
      insert-HasTerms w w' new.id new t keeps exits (λ node h.
        keeps node new.asset (rw asset (t i exit node stored (ground (arith, bidder, h)))))

  Filled-HasTerms :
      (i : ℕ) (exit : Exit)
      → lookup i w.auction.exits ≡ some exit
      → Filled e exit w w'
      → HasTerms w'
  Filled-HasTerms i exit stored f =
      let q =
        dequeue_if_queued-OutsideQueue (is_queued exit.status) e f.config exit f.settled f.left
          f.to_queue in
      let vault = ap (λ (u : World c). u.vault) f.result ∙ q.vault in
      kept-HasTerms i exit (record exit { status = Status.settled }) stored
        (λ m a there. rw vault (
          settle-KeepsTerms e f.config w f.settled exit.id f.node exit.amount exit.best_usdc
            f.to_router m a there))
        (ap exits_of (Filled-auction f)) (refl, refl)

  accept_bid-HasTerms : (i : ℕ) → Seller.accept_bid e i w ≡ ok (tt, w') → HasTerms w'
  accept_bid-HasTerms i h =
      let a = accept_bid-Accepted e i w w' h in Filled-HasTerms i a.exit a.stored a.filling

  close-HasTerms : (i : ℕ) → Bids.close e i w ≡ ok (tt, w') → HasTerms w'
  close-HasTerms i h =
      let k = close-Closed e i w w' h in
      elim (k.outcome) [
        | inl (_, f) ↦ Filled-HasTerms i k.exit k.stored f
        | inr (_, d) ↦
            let entered =
              queue_enqueue-Entered e d.config k.exit.id w d.entered k.exit.asset d.place
                d.to_queue in
            kept-HasTerms i k.exit (record (k.exit) { status = Status.queued }) k.stored
              (same_vault-KeepsTerms w w' (rw (d.result, entered.result) refl))
              (ap exits_of (Lined-auction d)) (refl, refl)
      ]

  place_bid-HasTerms :
      (node : Address) (i : ℕ) (usdc_amount : ℤ)
      → Bids.place_bid e node i usdc_amount w ≡ ok (tt, w')
      → HasTerms w'
  place_bid-HasTerms node i usdc_amount h =
      let b = place_bid-Bid e node i usdc_amount w w' h in
      let (kept, own) =
        commit-KeepsTerms e b.config w b.covered node b.exit.asset usdc_amount _ b.to_cover in
      let freed =
        release-KeepsTerms e b.config b.covered b.freed b.exit.best_node b.exit b.to_free in
      insert-HasTerms w w' b.exit.id (outbid node usdc_amount b.exit) t
        (λ m a there. rw (b.result) (freed m a (kept m a there)))
        (ap exits_of (Bid-OutsideVault e node i usdc_amount b).0)
        (λ m bidder. rw (b.result) (freed m b.exit.asset (ground (arith, own, bidder))))

  cancel-HasTerms : (i : ℕ) → Seller.cancel e i w ≡ ok (tt, w') → HasTerms w'
  cancel-HasTerms i h =
      let k = cancel-Withdrawn e i w w' h in
      let q =
        dequeue_if_queued-OutsideQueue (is_queued k.exit.status) e k.config k.exit k.freed k.left
          k.to_queue in
      let r = router_refund-Refunded e k.config k.exit.id k.left k.refunded k.to_router in
      let vault =
        ap (λ (u : World c). u.vault) k.result ∙ ap (λ (u : World c). u.vault) r.result ∙ q.vault in
      insert-HasTerms w w' k.exit.id (cancelled k.exit) t
        (λ m a there.
          rw vault
            (release-KeepsTerms e k.config w k.freed k.exit.best_node k.exit k.to_free m a there))
        (ap exits_of (Withdrawn-auction k)) (λ m bidder. absurd (ground (arith, bidder)))

  open_exit-HasTerms :
      (seller asset : Address) (amount reference_usdc min_accept_usdc : ℤ) (duration : Option ℕ)
      (id : ℕ)
      → Seller.open_exit e seller asset amount reference_usdc min_accept_usdc duration w
        ≡ ok (id, w')
      → HasTerms w'
  open_exit-HasTerms seller asset amount reference_usdc min_accept_usdc duration id h =
      let o =
        open_exit-Opened e seller asset amount reference_usdc min_accept_usdc duration id w w' h in
      let r =
        router_escrow-Escrowed e o.config id (counted w) o.escrowed seller asset amount
          o.to_router in
      insert-HasTerms w w' id
        (opened e seller asset amount reference_usdc min_accept_usdc duration id) t
        (same_vault-KeepsTerms w w'
          (ap (λ (u : World c). u.vault) o.result ∙ ap (λ (u : World c). u.vault) r.result))
        (ap exits_of
          (Opened-auction e seller asset amount reference_usdc min_accept_usdc duration o))
        (λ m bidder. absurd (ground (arith, bidder)))

  same_table-HasTerms : w'.auction.exits ≡ w.auction.exits → w'.vault ≡ w.vault → HasTerms w'
  same_table-HasTerms exits vault = rw (exits, vault) t

  initialize-HasTerms :
      (admin vault router queue : Address)
      → Seller.initialize e admin vault router queue w ≡ ok (tt, w')
      → HasTerms w'
  unfolding Seller.initialize
  initialize-HasTerms admin vault router queue h = same_table-HasTerms (ground arith) (ground arith)

  set_admin-HasTerms : (admin : Address) → Seller.set_admin e admin w ≡ ok (tt, w') → HasTerms w'
  unfolding Seller.set_admin
  set_admin-HasTerms admin h = same_table-HasTerms (ground arith) (ground arith)

pub perform-HasTerms :
    {c : Chain} (op : Operation) (e : Env) (w w' : World c)
    → HasTerms w
    → perform op e w ≡ ok (tt, w')
    → HasTerms w'
unfolding perform
perform-HasTerms (Operation.initialize admin vault router queue) e w w' t h =
    initialize-HasTerms e w w' t admin vault router queue h
perform-HasTerms (Operation.set_admin admin) e w w' t h = set_admin-HasTerms e w w' t admin h
perform-HasTerms (Operation.open_exit seller asset amount reference_usdc min_accept_usdc duration) e
      w w' t h =
    let (id, done) =
      open_exit_answer e seller asset amount reference_usdc min_accept_usdc duration w w' h in
    open_exit-HasTerms e w w' t seller asset amount reference_usdc min_accept_usdc duration id done
perform-HasTerms (Operation.place_bid node i usdc_amount) e w w' t h =
    place_bid-HasTerms e w w' t node i usdc_amount h
perform-HasTerms (Operation.accept_bid i) e w w' t h = accept_bid-HasTerms e w w' t i h
perform-HasTerms (Operation.cancel i) e w w' t h = cancel-HasTerms e w w' t i h
perform-HasTerms (Operation.close i) e w w' t h = close-HasTerms e w w' t i h
