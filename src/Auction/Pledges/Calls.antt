-- ===== src/Auction/Pledges/Calls.antt =====
-- Every call of contracts/exit_auction/src/lib.rs keeps what the vault has locked for each node equal
-- to the node's standing bids.
use stellar_exit_contracts.Auction.Pledges.Steps.{same_bid-IsPledged, drop-IsPledged, bid-IsPledged}
use stellar_exit_contracts.Auction.Pledges.{
  pledge, pledged, committed_of, locked_for, IsPledged, commit_locks, release_unlocks,
  settle_unlocks,
}
use stellar_exit_contracts.Auction.Exits.{own_record, unused, exits_of, IsFair, IsSound}
use stellar_exit_contracts.Auction.Operations.{Operation, perform, open_exit_answer}
use stellar_exit_contracts.Auction.Storage.{is_live, is_queued}
use stellar_exit_contracts.Auction.Seller
use stellar_exit_contracts.Auction.Bids
use stellar_exit_contracts.Auction.Frame.{
  router_refund-Refunded, router_escrow-Escrowed, queue_enqueue-Entered,
}
use stellar_exit_contracts.Auction.Effects.Filling.{
  Filled, Filled-auction, accept_bid-Accepted, dequeue_if_queued-OutsideQueue,
}
use stellar_exit_contracts.Auction.Effects.Closing.{Lined-auction, close-Closed}
use stellar_exit_contracts.Auction.Effects.Bidding.{outbid, place_bid-Bid, Bid-OutsideVault}
use stellar_exit_contracts.Auction.Effects.Selling.{
  counted, opened, open_exit-Opened, Opened-auction, cancelled, cancel-Withdrawn, Withdrawn-auction,
}
use stellar_exit_contracts.State.Auction.{Exit, Status}
use stellar_exit_contracts.State.Auction as AuctionState
use stellar_exit_contracts.State.Vault as VaultState
use stellar_exit_contracts.Host.Chain.{Address, Env, Chain, World}
use stellar_exit_contracts.Host.Call.{ok}
use stellar_exit_contracts.Prelude.{ℕ, ◌≡◌, refl, ap, ◌∙◌, inl, inr, true, Option, some, arith}
use stellar_exit_contracts.Prelude.Int.{ℤ, pos, ◌≤ℤ◌}
use stellar_exit_contracts.Prelude.Dict.{lookup, total-insert}

-- An offer is never negative.
best_nonneg : {n i : ℕ} {exit : Exit} → IsFair n i exit → pos 0 ≤ℤ exit.best_usdc
best_nonneg f = elim (f.bid) [
  | inl (_, e) ↦ rw e (omega arith)
  | inr (node, _, positive) ↦ omega (arith, positive)
]

module _ {c : Chain} (e : Env) (w w' : World c) (s : IsSound w) (l : IsPledged w) where
  Filled-IsPledged :
      (i : ℕ) (exit : Exit)
      → lookup i w.auction.exits ≡ some exit
      → is_live exit.status ≡ true
      → Filled e exit w w'
      → IsPledged w'
  Filled-IsPledged i exit stored live f =
      let q =
        dequeue_if_queued-OutsideQueue (is_queued exit.status) e f.config exit f.settled f.left
          f.to_queue in
      let vault = ap (λ (u : World c). u.vault) f.result ∙ q.vault in
      drop-IsPledged w w' l exit.id exit (record exit { status = Status.settled })
        (own_record w i exit s stored) (ap exits_of (Filled-auction f)) live refl
        (best_nonneg (s.fair i exit stored))
        (λ m.
          ap (λ (v : VaultState.Storage). committed_of (lookup m v.nodes)) vault
          ∙ settle_unlocks e f.config exit.id f.node exit.amount exit.best_usdc w f.settled
              f.to_router m
          ∙ rw (f.bidder) refl)

  accept_bid-IsPledged : (i : ℕ) → Seller.accept_bid e i w ≡ ok (tt, w') → IsPledged w'
  accept_bid-IsPledged i h =
      let a = accept_bid-Accepted e i w w' h in Filled-IsPledged i a.exit a.stored a.live a.filling

  close-IsPledged : (i : ℕ) → Bids.close e i w ≡ ok (tt, w') → IsPledged w'
  close-IsPledged i h =
      let k = close-Closed e i w w' h in
      elim (k.outcome) [
        | inl (_, f) ↦ Filled-IsPledged i k.exit k.stored (ground (arith, k.taking)) f
        | inr (_, d) ↦
            same_bid-IsPledged w w' l k.exit.id k.exit (record (k.exit) { status = Status.queued })
              (own_record w i k.exit s k.stored) (ap exits_of (Lined-auction d))
              (rw
                (
                  d.result,
                  (queue_enqueue-Entered e d.config k.exit.id w d.entered k.exit.asset d.place
                      d.to_queue).result,
                )
                refl)
              (λ m. ground (arith, k.taking))
      ]

  place_bid-IsPledged :
      (node : Address) (i : ℕ) (usdc_amount : ℤ)
      → Bids.place_bid e node i usdc_amount w ≡ ok (tt, w')
      → IsPledged w'
  place_bid-IsPledged node i usdc_amount h =
      let b = place_bid-Bid e node i usdc_amount w w' h in
      bid-IsPledged w w' l b.exit.id b.exit (outbid node usdc_amount b.exit)
        (own_record w i b.exit s b.stored) (ap exits_of (Bid-OutsideVault e node i usdc_amount b).0)
        node usdc_amount refl b.live (best_nonneg (s.fair i b.exit b.stored)) b.positive b.covered
        (commit_locks e b.config node b.exit.asset usdc_amount _ w b.covered b.to_cover)
        (λ m.
          ap (λ (u : World c). locked_for m u) b.result
          ∙ release_unlocks b.exit.best_node e b.config b.exit b.covered b.freed b.to_free m)

  cancel-IsPledged : (i : ℕ) → Seller.cancel e i w ≡ ok (tt, w') → IsPledged w'
  cancel-IsPledged i h =
      let k = cancel-Withdrawn e i w w' h in
      let q =
        dequeue_if_queued-OutsideQueue (is_queued k.exit.status) e k.config k.exit k.freed k.left
          k.to_queue in
      let r = router_refund-Refunded e k.config k.exit.id k.left k.refunded k.to_router in
      let vault =
        ap (λ (u : World c). u.vault) k.result ∙ ap (λ (u : World c). u.vault) r.result ∙ q.vault in
      drop-IsPledged w w' l k.exit.id k.exit (cancelled k.exit) (own_record w i k.exit s k.stored)
        (ap exits_of (Withdrawn-auction k)) k.live refl (best_nonneg (s.fair i k.exit k.stored))
        (λ m.
          ap (λ (v : VaultState.Storage). committed_of (lookup m v.nodes)) vault
          ∙ release_unlocks k.exit.best_node e k.config k.exit w k.freed k.to_free m)

  open_exit-IsPledged :
      (seller asset : Address) (amount reference_usdc min_accept_usdc : ℤ) (duration : Option ℕ)
      (id : ℕ)
      → Seller.open_exit e seller asset amount reference_usdc min_accept_usdc duration w
        ≡ ok (id, w')
      → IsPledged w'
  open_exit-IsPledged seller asset amount reference_usdc min_accept_usdc duration id h m =
      let o =
        open_exit-Opened e seller asset amount reference_usdc min_accept_usdc duration id w w' h in
      let r =
        router_escrow-Escrowed e o.config id (counted w) o.escrowed seller asset amount
          o.to_router in
      let new = opened e seller asset amount reference_usdc min_accept_usdc duration id in
      let auction =
        Opened-auction e seller asset amount reference_usdc min_accept_usdc duration o in
      ap (λ (u : World c). locked_for m u) o.result
      ∙ ap (λ (u : World c). locked_for m u) r.result
      ∙ l m
      ∙ ap pos (
          ground (
            arith,
            ap (λ (a : AuctionState.Storage). pledged m a.exits) auction,
            total-insert (pledge m) id new w.auction.exits,
            unused w id s o.next,
          ))

  same_table-IsPledged : w'.auction.exits ≡ w.auction.exits → w'.vault ≡ w.vault → IsPledged w'
  same_table-IsPledged exits vault m = rw (exits, vault) (l m)

  initialize-IsPledged :
      (admin vault router queue : Address)
      → Seller.initialize e admin vault router queue w ≡ ok (tt, w')
      → IsPledged w'
  unfolding Seller.initialize
  initialize-IsPledged admin vault router queue h =
      same_table-IsPledged (ground arith) (ground arith)

  set_admin-IsPledged : (admin : Address) → Seller.set_admin e admin w ≡ ok (tt, w') → IsPledged w'
  unfolding Seller.set_admin
  set_admin-IsPledged admin h = same_table-IsPledged (ground arith) (ground arith)

-- Every call of the auction that succeeds on a sound table keeps the capital that the vault has locked
-- for each node equal to the sum of the node's standing bids on live exits.
pub perform-IsPledged :
    {c : Chain} (op : Operation) (e : Env) (w w' : World c)
    → IsSound w
    → IsPledged w
    → perform op e w ≡ ok (tt, w')
    → IsPledged w'
unfolding perform
perform-IsPledged (Operation.initialize admin vault router queue) e w w' s l h =
    initialize-IsPledged e w w' s l admin vault router queue h
perform-IsPledged (Operation.set_admin admin) e w w' s l h = set_admin-IsPledged e w w' s l admin h
perform-IsPledged (Operation.open_exit seller asset amount reference_usdc min_accept_usdc duration)
      e w w' s l h =
    let (id, done) =
      open_exit_answer e seller asset amount reference_usdc min_accept_usdc duration w w' h in
    open_exit-IsPledged e w w' s l seller asset amount reference_usdc min_accept_usdc duration id
      done
perform-IsPledged (Operation.place_bid node i usdc_amount) e w w' s l h =
    place_bid-IsPledged e w w' s l node i usdc_amount h
perform-IsPledged (Operation.accept_bid i) e w w' s l h = accept_bid-IsPledged e w w' s l i h
perform-IsPledged (Operation.cancel i) e w w' s l h = cancel-IsPledged e w w' s l i h
perform-IsPledged (Operation.close i) e w w' s l h = close-IsPledged e w w' s l i h
