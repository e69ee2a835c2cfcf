-- ===== src/Auction/Seller.antt =====
-- contracts/exit_auction/src/lib.rs: the lifecycle and "The seller's side".
use stellar_exit_contracts.Auction.Storage.{
  read_config, write_config, write_next_id, read_exit, write_exit, require_live, router_escrow,
  router_refund, dequeue_if_queued, is_queued, fill, release_best,
}
use stellar_exit_contracts.State.Auction.{Status, default_duration, min_duration, max_duration}
use stellar_exit_contracts.State.Errors.{Error, AuctionError}
use stellar_exit_contracts.State.Events.{Event, AuctionEvent}
use stellar_exit_contracts.Host.Chain.{Address, Env, Chain}
use stellar_exit_contracts.Host.Call.{
  Call, ◌>>=◌, ◌>>◌, fail_if, gets, pure, require_auth, add_u64, publish,
}
use stellar_exit_contracts.Prelude.{ℕ, ◌||◌, ◌&&◌, Option, none, leb, not, is_some, unwrap_or}
use stellar_exit_contracts.Prelude.Int.{ℤ, pos, ltb_ℤ, leb_ℤ}

module _ {c : Chain} where
  unfoldable pub initialize : Env → Address → Address → Address → Address → Call c (Unit {0})
  initialize e admin vault router queue = do
    found ← gets (λ w. is_some w.auction.config)
    fail_if found (Error.auction AuctionError.already_initialized)
    write_config (record { admin = admin; vault = vault; router = router; queue = queue })
    write_next_id 1

  unfoldable pub set_admin : Env → Address → Call c (Unit {0})
  set_admin e new_admin = do
    config ← read_config
    require_auth e config.admin
    write_config (record config { admin = new_admin })

  unfoldable pub open_exit : Env → Address → Address → ℤ → ℤ → ℤ → Option ℕ → Call c ℕ
  open_exit e seller asset amount reference_usdc min_accept_usdc duration = do
    require_auth e seller
    config ← read_config
    fail_if (leb_ℤ amount (pos 0) || ltb_ℤ min_accept_usdc (pos 0))
        (Error.auction AuctionError.invalid_amount)
    fail_if (leb_ℤ reference_usdc (pos 0)) (Error.auction AuctionError.invalid_reference)
    let window = unwrap_or duration default_duration
    fail_if (not (leb min_duration window && leb window max_duration))
        (Error.auction AuctionError.invalid_duration)
    id ← gets (λ w. unwrap_or w.auction.next_id 1)
    next ← add_u64 id 1
    write_next_id next
    router_escrow e config id seller asset amount
    closes_at ← add_u64 e.timestamp window
    write_exit (record {
      id = id;
      seller = seller;
      asset = asset;
      amount = amount;
      reference_usdc = reference_usdc;
      min_accept_usdc = min_accept_usdc;
      opened_at = e.timestamp;
      closes_at = closes_at;
      status = Status.taking_bids;
      best_node = none;
      best_usdc = pos 0;
    })
    publish (
        Event.auction (
          AuctionEvent.exit_opened asset id seller amount reference_usdc min_accept_usdc closes_at))
    pure id

  unfoldable pub accept_bid : Env → ℕ → Call c (Unit {0})
  accept_bid e exit_id = do
    exit ← read_exit exit_id
    require_auth e exit.seller
    require_live exit
    fail_if (not (is_some exit.best_node)) (Error.auction AuctionError.no_bids)
    fill e exit

  unfoldable pub cancel : Env → ℕ → Call c (Unit {0})
  cancel e exit_id = do
    exit ← read_exit exit_id
    require_auth e exit.seller
    require_live exit
    config ← read_config
    release_best e config exit
    dequeue_if_queued (is_queued exit.status) e config exit
    router_refund e config exit.id
    write_exit (record exit { status = Status.cancelled; best_node = none; best_usdc = pos 0 })
    publish (Event.auction (AuctionEvent.exit_cancelled exit.asset exit_id exit.seller))
