-- ===== src/Auction/Effects/Selling.antt =====
-- What `open_exit` and `cancel` of contracts/exit_auction/src/lib.rs have found and done when they
-- succeed.
use stellar_exit_contracts.Auction.Effects.{Found, Found-cases}
use stellar_exit_contracts.Auction.Effects.Filling.{stored_exit, dequeue_if_queued-OutsideQueue}
use stellar_exit_contracts.Auction.Frame.{
  release_prev-OutsideVault, escrow-OutsideRouter, router_refund-Refunded,
}
use stellar_exit_contracts.Auction.Storage.{
  router_escrow, router_refund, release_best, release_prev, dequeue_if_queued, is_queued, is_live,
}
use stellar_exit_contracts.Auction.Seller.{open_exit, cancel}
use stellar_exit_contracts.Vault.Effects.{IsAuthorized}
use stellar_exit_contracts.State.Auction.{
  Config, Exit, Status, default_duration, min_duration, max_duration,
}
use stellar_exit_contracts.State.Events.{Event, AuctionEvent}
use stellar_exit_contracts.Host.Chain.{Address, Env, Chain, World}
use stellar_exit_contracts.Host.Call.{ok, Result-cases}
use stellar_exit_contracts.Prelude.{
  ℕ, ◌+◌, ◌≤◌, ◌<◌, ◌^◌, ◌≡◌, refl, inl, inr, true, Option, some, none, ◌∷◌, unwrap_or, arith,
  Option-cases,
}
use stellar_exit_contracts.Prelude.Int.{ℤ, pos, ◌≤ℤ◌, ◌<ℤ◌}

module _ {c : Chain} where
  -- The id that the next exit gets.
  abbrev pub fresh_id : World c → ℕ
  fresh_id w = unwrap_or w.auction.next_id 1

  -- The id counted on, before anything else happens.
  abbrev pub counted : World c → World c
  counted w = record w { auction = record (w.auction) { next_id = some (fresh_id w + 1) } }

-- The exit as it is opened.
abbrev pub opened : Env → Address → Address → ℤ → ℤ → ℤ → Option ℕ → ℕ → Exit
opened e seller asset amount reference_usdc min_accept_usdc duration id = record {
  id = id;
  seller = seller;
  asset = asset;
  amount = amount;
  reference_usdc = reference_usdc;
  min_accept_usdc = min_accept_usdc;
  opened_at = e.timestamp;
  closes_at = e.timestamp + unwrap_or duration default_duration;
  status = Status.taking_bids;
  best_node = none;
  best_usdc = pos 0;
}

module _ {c : Chain} (e : Env) (seller asset : Address) (amount reference_usdc min_accept_usdc : ℤ)
    (duration : Option ℕ) where
  pub record Opened (id : ℕ) (w w' : World c) : Type 0 where
    pub config : Config
    pub escrowed : World c
    pub configured : w.auction.config ≡ some config
    pub signed : IsAuthorized e seller
    pub amount_positive : pos 0 <ℤ amount
    pub reference_positive : pos 0 <ℤ reference_usdc
    pub reserve_nonneg : pos 0 ≤ℤ min_accept_usdc
    pub long_enough : min_duration ≤ unwrap_or duration default_duration
    pub short_enough : unwrap_or duration default_duration ≤ max_duration
    pub next : id ≡ fresh_id w
    pub countable : id + 1 < 2 ^ 64
    pub to_router : router_escrow e config id seller asset amount (counted w) ≡ ok (tt, escrowed)
    pub result :
        w'
        ≡ record (stored_exit
            (opened e seller asset amount reference_usdc min_accept_usdc duration id)
            escrowed) {
              events =
                  Event.auction (
                    AuctionEvent.exit_opened asset id seller amount reference_usdc min_accept_usdc
                      (e.timestamp + unwrap_or duration default_duration))
                  ∷ escrowed.events;
            }

  pub open_exit-Opened :
      (id : ℕ) (w w' : World c)
      → open_exit e seller asset amount reference_usdc min_accept_usdc duration w ≡ ok (id, w')
      → Opened id w w'
  unfolding open_exit
  open_exit-Opened id w w' h = elim (Option-cases w.auction.config) [
    | inl missing ↦ absurd (ground arith)
    | inr (config, configured) ↦
        elim (Result-cases (router_escrow e config (fresh_id w) seller asset amount (counted w))) [
          | inl (x, refused) ↦ absurd (ground arith)
          | inr (_, escrowed, to_router) ↦ record {
            config = config;
            escrowed = escrowed;
            configured = configured;
            signed = ground arith;
            amount_positive = ground arith;
            reference_positive = ground arith;
            reserve_nonneg = ground arith;
            long_enough = ground arith;
            short_enough = ground arith;
            next = ground arith;
            countable = ground arith;
            to_router = ground arith;
            result = ground arith;
          }
        ]
  ]

  -- The exit is entered and the count goes on; the rest of the auction's storage stays.
  pub Opened-auction :
      {id : ℕ} {w w' : World c}
      → Opened id w w'
      → w'.auction
        ≡ (stored_exit
            (opened e seller asset amount reference_usdc min_accept_usdc duration id)
            (counted w)).auction
  Opened-auction {id} {w} {w'} o =
      let r =
        escrow-OutsideRouter e o.config id seller asset amount (counted w) o.escrowed o.to_router in
      rw (o.result, r.auction) refl

-- The exit as it is cancelled.
abbrev pub cancelled : Exit → Exit
cancelled exit = record exit { status = Status.cancelled; best_node = none; best_usdc = pos 0 }

module _ {c : Chain} where
  pub record Withdrawn (e : Env) (exit_id : ℕ) (w w' : World c) : Type 0 where
    pub found : Found exit_id w
    pub open found use *
    pub freed : World c
    pub left : World c
    pub refunded : World c
    pub signed : IsAuthorized e exit.seller
    pub live : is_live exit.status ≡ true
    pub to_free : release_prev exit.best_node e config exit w ≡ ok (tt, freed)
    pub to_queue : dequeue_if_queued (is_queued exit.status) e config exit freed ≡ ok (tt, left)
    pub to_router : router_refund e config exit.id left ≡ ok (tt, refunded)
    pub result : w' ≡ record (stored_exit (cancelled exit) refunded) {
      events =
          Event.auction (AuctionEvent.exit_cancelled exit.asset exit_id exit.seller)
          ∷ refunded.events;
    }

  pub cancel-Withdrawn :
      (e : Env) (exit_id : ℕ) (w w' : World c)
      → cancel e exit_id w ≡ ok (tt, w')
      → Withdrawn e exit_id w w'
  unfolding cancel release_best
  cancel-Withdrawn e exit_id w w' h = elim (Found-cases exit_id w) [
    | inl (inl unknown) ↦ absurd (ground arith)
    | inl (inr (exit, stored, missing)) ↦ absurd (ground arith)
    | inr f ↦ elim (Result-cases (release_prev f.exit.best_node e f.config f.exit w)) [
      | inl (x, refused) ↦ absurd (ground (arith, f.configured, f.stored))
      | inr (_, freed, to_free) ↦
          elim (Result-cases
            (dequeue_if_queued (is_queued f.exit.status) e f.config f.exit freed)) [
              | inl (x, refused) ↦ absurd (ground (arith, f.configured, f.stored))
              | inr (_, left, to_queue) ↦
                  elim (Result-cases (router_refund e f.config f.exit.id left)) [
                    | inl (x, refused) ↦ absurd (ground (arith, f.configured, f.stored))
                    | inr (_, refunded, to_router) ↦ record {
                      found = f;
                      freed = freed;
                      left = left;
                      refunded = refunded;
                      signed = ground (arith, f.configured, f.stored);
                      live = ground (arith, f.configured, f.stored);
                      to_free = to_free;
                      to_queue = to_queue;
                      to_router = to_router;
                      result = ground (arith, f.configured, f.stored);
                    }
                  ]
            ]
    ]
  ]

  pub Withdrawn-auction :
      {e : Env} {exit_id : ℕ} {w w' : World c}
      → (x : Withdrawn e exit_id w w') → w'.auction ≡ (stored_exit (cancelled x.exit) w).auction
  Withdrawn-auction {e} {exit_id} {w} {w'} x =
      let v = release_prev-OutsideVault x.exit.best_node e x.config x.exit w x.freed x.to_free in
      let q =
        dequeue_if_queued-OutsideQueue (is_queued x.exit.status) e x.config x.exit x.freed x.left
          x.to_queue in
      let r = router_refund-Refunded e x.config x.exit.id x.left x.refunded x.to_router in
      rw (x.result, r.result, q.auction, v.auction) refl
