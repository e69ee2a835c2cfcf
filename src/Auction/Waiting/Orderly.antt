-- ===== src/Auction/Waiting/Orderly.antt =====
-- Every call of contracts/exit_auction/src/lib.rs keeps the lines of contracts/fifo_queue/src/lib.rs
-- orderly.
use stellar_exit_contracts.Auction.Waiting.Calls.{IsOrderly-same}
use stellar_exit_contracts.Auction.Operations.{Operation, perform, open_exit_answer}
use stellar_exit_contracts.Auction.Storage.{
  is_queued, dequeue_if_queued, queue_dequeue, queue_enqueue,
}
use stellar_exit_contracts.Auction.Seller
use stellar_exit_contracts.Auction.Bids
use stellar_exit_contracts.Auction.Frame.{
  release_prev-OutsideVault, settle-OutsideRouter, escrow-OutsideRouter, router_refund-Refunded,
}
use stellar_exit_contracts.Auction.Effects.Filling.{Filled, accept_bid-Accepted}
use stellar_exit_contracts.Auction.Effects.Closing.{close-Closed}
use stellar_exit_contracts.Auction.Effects.Bidding.{place_bid-Bid, Bid-OutsideVault}
use stellar_exit_contracts.Auction.Effects.Selling.{counted, open_exit-Opened, cancel-Withdrawn}
use stellar_exit_contracts.Queue
use stellar_exit_contracts.Queue.Calls.{IsOrderly, enqueue-IsOrderly, dequeue-IsOrderly}
use stellar_exit_contracts.State.Auction.{Config, Exit}
use stellar_exit_contracts.Host.Chain.{Address, Env, Chain, World}
use stellar_exit_contracts.Host.Call.{ok, call_contract-eq-ok}
use stellar_exit_contracts.Prelude.{ℕ, ◌≡◌, ap, ◌∙◌, inl, inr, Bool, true, false, Option, arith}
use stellar_exit_contracts.Prelude.Int.{ℤ}

module _ {c : Chain} where
  queue_dequeue-IsOrderly :
      (e : Env) (config : Config) (asset exit_id : ℕ) (w w' : World c)
      → IsOrderly w
      → queue_dequeue e config asset exit_id w ≡ ok (tt, w')
      → IsOrderly w'
  unfolding queue_dequeue
  queue_dequeue-IsOrderly e config asset exit_id w w' o h =
      dequeue-IsOrderly _ asset exit_id w w' o (
        call_contract-eq-ok e (Chain.queue_address c) config.queue
          (λ inner. Queue.dequeue inner asset exit_id) w w' h)

  queue_enqueue-IsOrderly :
      (e : Env) (config : Config) (asset exit_id place : ℕ) (w w' : World c)
      → IsOrderly w
      → queue_enqueue e config asset exit_id w ≡ ok (place, w')
      → IsOrderly w'
  unfolding queue_enqueue
  queue_enqueue-IsOrderly e config asset exit_id place w w' o h =
      enqueue-IsOrderly _ asset exit_id place w w' o (
        call_contract-eq-ok e (Chain.queue_address c) config.queue
          (λ inner. Queue.enqueue inner asset exit_id) w w' h)

  leaving-IsOrderly :
      (queued : Bool) (e : Env) (config : Config) (exit : Exit) (w w' : World c)
      → IsOrderly w
      → dequeue_if_queued queued e config exit w ≡ ok (tt, w')
      → IsOrderly w'
  leaving-IsOrderly true e config exit w w' o h =
      queue_dequeue-IsOrderly e config exit.asset exit.id w w' o h
  leaving-IsOrderly false e config exit w w' o h = IsOrderly-same w w' (ground (arith, h)) o

  module _ (e : Env) (w w' : World c) (o : IsOrderly w) where
    Filled-IsOrderly : (exit : Exit) → Filled e exit w w' → IsOrderly w'
    Filled-IsOrderly exit f = IsOrderly-same f.left w' (ap (λ (u : World c). u.queue) f.result) (
        leaving-IsOrderly (is_queued exit.status) e f.config exit f.settled f.left
          (IsOrderly-same w f.settled
            ((settle-OutsideRouter e f.config exit.id f.node exit.amount exit.best_usdc w f.settled
              f.to_router).queue)
            o)
          f.to_queue)

    close-IsOrderly : (i : ℕ) → Bids.close e i w ≡ ok (tt, w') → IsOrderly w'
    close-IsOrderly i h =
        let k = close-Closed e i w w' h in
        elim (k.outcome) [
          | inl (_, f) ↦ Filled-IsOrderly k.exit f
          | inr (_, d) ↦ IsOrderly-same d.entered w' (ap (λ (u : World c). u.queue) d.result) (
              queue_enqueue-IsOrderly e d.config k.exit.asset k.exit.id d.place w d.entered o
                d.to_queue)
        ]

    cancel-IsOrderly : (i : ℕ) → Seller.cancel e i w ≡ ok (tt, w') → IsOrderly w'
    cancel-IsOrderly i h =
        let k = cancel-Withdrawn e i w w' h in
        let r = router_refund-Refunded e k.config k.exit.id k.left k.refunded k.to_router in
        IsOrderly-same k.left w'
          (ap (λ (u : World c). u.queue) k.result ∙ ap (λ (u : World c). u.queue) r.result)
          (leaving-IsOrderly (is_queued k.exit.status) e k.config k.exit k.freed k.left
            (IsOrderly-same w k.freed
              ((release_prev-OutsideVault k.exit.best_node e k.config k.exit w k.freed
                k.to_free).queue)
              o)
            k.to_queue)

    open_exit-IsOrderly :
        (seller asset : Address) (amount reference_usdc min_accept_usdc : ℤ) (duration : Option ℕ)
        (id : ℕ)
        → Seller.open_exit e seller asset amount reference_usdc min_accept_usdc duration w
          ≡ ok (id, w')
        → IsOrderly w'
    open_exit-IsOrderly seller asset amount reference_usdc min_accept_usdc duration id h =
        let q =
          open_exit-Opened e seller asset amount reference_usdc min_accept_usdc duration id w w'
            h in
        let r =
          escrow-OutsideRouter e q.config id seller asset amount (counted w) q.escrowed
            q.to_router in
        IsOrderly-same w w' (ap (λ (u : World c). u.queue) q.result ∙ r.queue) o

    initialize-IsOrderly :
        (admin vault router queue : Address)
        → Seller.initialize e admin vault router queue w ≡ ok (tt, w')
        → IsOrderly w'
    unfolding Seller.initialize
    initialize-IsOrderly admin vault router queue h = IsOrderly-same w w' (ground arith) o

    set_admin-IsOrderly :
        (admin : Address) → Seller.set_admin e admin w ≡ ok (tt, w') → IsOrderly w'
    unfolding Seller.set_admin
    set_admin-IsOrderly admin h = IsOrderly-same w w' (ground arith) o

  pub perform-IsOrderly :
      (op : Operation) (e : Env) (w w' : World c)
      → IsOrderly w
      → perform op e w ≡ ok (tt, w')
      → IsOrderly w'
  unfolding perform
  perform-IsOrderly (Operation.initialize admin vault router queue) e w w' o h =
      initialize-IsOrderly e w w' o admin vault router queue h
  perform-IsOrderly (Operation.set_admin admin) e w w' o h = set_admin-IsOrderly e w w' o admin h
  perform-IsOrderly
        (Operation.open_exit seller asset amount reference_usdc min_accept_usdc duration) e w w' o
        h =
      let (id, done) =
        open_exit_answer e seller asset amount reference_usdc min_accept_usdc duration w w' h in
      open_exit-IsOrderly e w w' o seller asset amount reference_usdc min_accept_usdc duration id
        done
  perform-IsOrderly (Operation.place_bid node i usdc_amount) e w w' o h =
      let b = place_bid-Bid e node i usdc_amount w w' h in
      IsOrderly-same w w' (Bid-OutsideVault e node i usdc_amount b).2 o
  perform-IsOrderly (Operation.accept_bid i) e w w' o h =
      let a = accept_bid-Accepted e i w w' h in Filled-IsOrderly e w w' o a.exit a.filling
  perform-IsOrderly (Operation.cancel i) e w w' o h = cancel-IsOrderly e w w' o i h
  perform-IsOrderly (Operation.close i) e w w' o h = close-IsOrderly e w w' o i h
