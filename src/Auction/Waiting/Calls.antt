-- ===== src/Auction/Waiting/Calls.antt =====
-- Every call of contracts/exit_auction/src/lib.rs keeps the lines in step with the exits.
use stellar_exit_contracts.Auction.Waiting.{IsLined, own_place, step-IsLined, dequeued_places}
use stellar_exit_contracts.Auction.Exits.{own_record, IsSound, exits_of}
use stellar_exit_contracts.Auction.Operations.{Operation, perform, open_exit_answer}
use stellar_exit_contracts.Auction.Storage.{is_queued, dequeue_if_queued}
use stellar_exit_contracts.Auction.Seller
use stellar_exit_contracts.Auction.Bids
use stellar_exit_contracts.Auction.Frame.{
  release_prev-OutsideVault, settle-OutsideRouter, escrow-OutsideRouter, router_refund-Refunded,
  queue_enqueue-Entered,
}
use stellar_exit_contracts.Auction.Effects.Filling.{Filled, Filled-auction, accept_bid-Accepted}
use stellar_exit_contracts.Auction.Effects.Closing.{Lined-auction, close-Closed}
use stellar_exit_contracts.Auction.Effects.Bidding.{outbid, place_bid-Bid, Bid-OutsideVault}
use stellar_exit_contracts.Auction.Effects.Selling.{
  fresh_id, counted, opened, open_exit-Opened, Opened-auction, cancelled, cancel-Withdrawn,
  Withdrawn-auction,
}
use stellar_exit_contracts.Queue.Calls.{line, IsOrderly}
use stellar_exit_contracts.Queue.Line.{contains-push}
use stellar_exit_contracts.State.Auction.{Config, Exit, Status}
use stellar_exit_contracts.State.Queue as QueueState
use stellar_exit_contracts.Host.Chain.{Address, Env, Chain, World}
use stellar_exit_contracts.Host.Call.{ok}
use stellar_exit_contracts.Prelude.{
  ℕ, ◌≡◌, refl, ap, ◌∙◌, inl, inr, false, not, ◌&&◌, Option, some, [], arith, ◌==◌, Bool-cases,
  ==_refl, unwrap_or,
}
use stellar_exit_contracts.Prelude.Int.{ℤ}
use stellar_exit_contracts.Prelude.Dict.{lookup, insert}
use stellar_exit_contracts.Prelude.Lists.{contains}

module _ {c : Chain} where
  pub line-same :
      (w w' : World c) → w'.queue ≡ w.queue → (asset : Address) → line w' asset ≡ line w asset
  line-same w w' same asset = ap (λ (q : QueueState.Storage). unwrap_or (q.queues asset) []) same

  pub IsOrderly-same : (w w' : World c) → w'.queue ≡ w.queue → IsOrderly w → IsOrderly w'
  IsOrderly-same w w' same o = record {
    bounded = λ asset. rw same (o.bounded asset);
    unrepeated = λ asset. rw same (o.unrepeated asset);
  }

  -- The lines stay, and so does the place of the exit that is written.
  stay-IsLined :
      (w w' : World c) (i : ℕ) (exit new : Exit)
      → IsLined w
      → lookup i w.auction.exits ≡ some exit
      → w'.auction.exits ≡ insert i new w.auction.exits
      → w'.queue ≡ w.queue
      → new.asset ≡ exit.asset
      → is_queued new.status ≡ is_queued exit.status
      → IsLined w'
  stay-IsLined w w' i exit new l stored exits same asset_same status_same =
      step-IsLined w w' i new l exits (λ asset j apart. ap (contains j) (line-same w w' same asset))
        (λ asset.
          ap (contains i) (line-same w w' same asset)
          ∙ own_place w i exit l stored asset
          ∙ rw (status_same, asset_same) refl)

  -- The exit that is written leaves its line, if it stands in one.
  leave-IsLined :
      (e : Env) (config : Config) (w v u w' : World c) (exit new : Exit)
      → IsLined w
      → IsOrderly w
      → lookup exit.id w.auction.exits ≡ some exit
      → v.queue ≡ w.queue
      → dequeue_if_queued (is_queued exit.status) e config exit v ≡ ok (tt, u)
      → w'.queue ≡ u.queue
      → w'.auction.exits ≡ insert exit.id new w.auction.exits
      → is_queued new.status ≡ false
      → IsLined w'
  leave-IsLined e config w v u w' exit new l o stored before left after exits gone =
      let places =
        dequeued_places (is_queued exit.status) e config exit v u (IsOrderly-same w v before o)
          left in
      step-IsLined w w' exit.id new l exits
        (λ asset j apart.
          ap (contains j) (line-same u w' after asset)
          ∙ (places asset).0 j apart
          ∙ ap (contains j) (line-same w v before asset))
        (λ asset.
          ap (contains exit.id) (line-same u w' after asset)
          ∙ (places asset).1
          ∙ ap (λ b. b && not (is_queued exit.status && (exit.asset == asset)))
              (ap (contains exit.id) (line-same w v before asset)
                ∙ own_place w exit.id exit l stored asset)
          ∙ ground (arith, gone))

  module _ (e : Env) (w w' : World c) (s : IsSound w) (o : IsOrderly w) (l : IsLined w) where
    Filled-IsLined :
        (i : ℕ) (exit : Exit)
        → lookup i w.auction.exits ≡ some exit
        → Filled e exit w w'
        → IsLined w'
    Filled-IsLined i exit stored f =
        leave-IsLined e f.config w f.settled f.left w' exit
          (record exit { status = Status.settled }) l o (own_record w i exit s stored)
          ((settle-OutsideRouter e f.config exit.id f.node exit.amount exit.best_usdc w f.settled
            f.to_router).queue)
          f.to_queue (ap (λ (x : World c). x.queue) f.result) (ap exits_of (Filled-auction f)) refl

    accept_bid-IsLined : (i : ℕ) → Seller.accept_bid e i w ≡ ok (tt, w') → IsLined w'
    accept_bid-IsLined i h =
        let a = accept_bid-Accepted e i w w' h in Filled-IsLined i a.exit a.stored a.filling

    close-IsLined : (i : ℕ) → Bids.close e i w ≡ ok (tt, w') → IsLined w'
    close-IsLined i h =
        let k = close-Closed e i w w' h in
        elim (k.outcome) [
          | inl (_, f) ↦ Filled-IsLined i k.exit k.stored f
          | inr (_, d) ↦
              let f =
                queue_enqueue-Entered e d.config k.exit.id w d.entered k.exit.asset d.place
                  d.to_queue in
              let mine = own_place w k.exit.id k.exit l (own_record w i k.exit s k.stored) in
              step-IsLined w w' k.exit.id (record (k.exit) { status = Status.queued }) l
                (ap exits_of (Lined-auction d))
                (λ asset j apart.
                  rw (d.result, f.result)
                    (ground (arith, apart, contains-push j k.exit.id (line w k.exit.asset))))
                (λ asset.
                  rw (d.result, f.result)
                    (ground (
                      arith,
                      k.taking,
                      mine asset,
                      contains-push k.exit.id k.exit.id (line w k.exit.asset),
                      ==_refl k.exit.id,
                    )))
        ]

    place_bid-IsLined :
        (node : Address) (i : ℕ) (usdc_amount : ℤ)
        → Bids.place_bid e node i usdc_amount w ≡ ok (tt, w')
        → IsLined w'
    place_bid-IsLined node i usdc_amount h =
        let b = place_bid-Bid e node i usdc_amount w w' h in
        let (auction, router, queue) = Bid-OutsideVault e node i usdc_amount b in
        stay-IsLined w w' b.exit.id b.exit (outbid node usdc_amount b.exit) l
          (own_record w i b.exit s b.stored) (ap exits_of auction) queue refl refl

    cancel-IsLined : (i : ℕ) → Seller.cancel e i w ≡ ok (tt, w') → IsLined w'
    cancel-IsLined i h =
        let k = cancel-Withdrawn e i w w' h in
        leave-IsLined e k.config w k.freed k.left w' k.exit (cancelled k.exit) l o
          (own_record w i k.exit s k.stored)
          ((release_prev-OutsideVault k.exit.best_node e k.config k.exit w k.freed k.to_free).queue)
          k.to_queue
          (rw
            (
              k.result,
              (router_refund-Refunded e k.config k.exit.id k.left k.refunded k.to_router).result,
            )
            refl)
          (ap exits_of (Withdrawn-auction k)) refl

    -- A new id stands in no line.
    unlisted : (id : ℕ) → id ≡ fresh_id w → (asset : Address) → contains id (line w asset) ≡ false
    unlisted id fresh asset = elim (Bool-cases (contains id (line w asset))) [
      | inr away ↦ away
      | inl there ↦
          let (x, found, place) = l.stands asset id there in
          absurd (omega (arith, fresh, (s.fair id x found).issued))
    ]

    open_exit-IsLined :
        (seller asset : Address) (amount reference_usdc min_accept_usdc : ℤ) (duration : Option ℕ)
        (id : ℕ)
        → Seller.open_exit e seller asset amount reference_usdc min_accept_usdc duration w
          ≡ ok (id, w')
        → IsLined w'
    open_exit-IsLined seller asset amount reference_usdc min_accept_usdc duration id h =
        let q =
          open_exit-Opened e seller asset amount reference_usdc min_accept_usdc duration id w w'
            h in
        let r =
          escrow-OutsideRouter e q.config id seller asset amount (counted w) q.escrowed
            q.to_router in
        let same = ap (λ (x : World c). x.queue) q.result ∙ r.queue in
        step-IsLined w w' id
          (opened e seller asset amount reference_usdc min_accept_usdc duration id) l
          (ap exits_of
            (Opened-auction e seller asset amount reference_usdc min_accept_usdc duration q))
          (λ t j apart. ap (contains j) (line-same w w' same t))
          (λ t. ap (contains id) (line-same w w' same t) ∙ unlisted id q.next t)

    same_table-IsLined : w'.auction.exits ≡ w.auction.exits → w'.queue ≡ w.queue → IsLined w'
    same_table-IsLined exits queue = record {
      stands = rw (exits, queue) (l.stands);
      waits = rw (exits, queue) (l.waits);
    }

    initialize-IsLined :
        (admin vault router queue : Address)
        → Seller.initialize e admin vault router queue w ≡ ok (tt, w')
        → IsLined w'
    unfolding Seller.initialize
    initialize-IsLined admin vault router queue h = same_table-IsLined (ground arith) (ground arith)

    set_admin-IsLined : (admin : Address) → Seller.set_admin e admin w ≡ ok (tt, w') → IsLined w'
    unfolding Seller.set_admin
    set_admin-IsLined admin h = same_table-IsLined (ground arith) (ground arith)

  -- Every call of the auction that succeeds on a sound table and orderly lines keeps the lines in
  -- step with the exits: whoever stands in the line of an asset is a queued exit of that asset, so
  -- that no settled or cancelled exit blocks it, and every queued exit stands in its line.
  pub perform-IsLined :
      (op : Operation) (e : Env) (w w' : World c)
      → IsSound w
      → IsOrderly w
      → IsLined w
      → perform op e w ≡ ok (tt, w')
      → IsLined w'
  unfolding perform
  perform-IsLined (Operation.initialize admin vault router queue) e w w' s o l h =
      initialize-IsLined e w w' s o l admin vault router queue h
  perform-IsLined (Operation.set_admin admin) e w w' s o l h =
      set_admin-IsLined e w w' s o l admin h
  perform-IsLined (Operation.open_exit seller asset amount reference_usdc min_accept_usdc duration)
        e w w' s o l h =
      let (id, done) =
        open_exit_answer e seller asset amount reference_usdc min_accept_usdc duration w w' h in
      open_exit-IsLined e w w' s o l seller asset amount reference_usdc min_accept_usdc duration id
        done
  perform-IsLined (Operation.place_bid node i usdc_amount) e w w' s o l h =
      place_bid-IsLined e w w' s o l node i usdc_amount h
  perform-IsLined (Operation.accept_bid i) e w w' s o l h = accept_bid-IsLined e w w' s o l i h
  perform-IsLined (Operation.cancel i) e w w' s o l h = cancel-IsLined e w w' s o l i h
  perform-IsLined (Operation.close i) e w w' s o l h = close-IsLined e w w' s o l i h
