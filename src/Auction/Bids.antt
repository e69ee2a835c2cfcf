-- ===== src/Auction/Bids.antt =====
-- contracts/exit_auction/src/lib.rs: "The node's side" and "Closing the window".
use stellar_exit_contracts.Auction.Storage.{
  read_config, read_exit, write_exit, require_live, vault_commit, release_prev, queue_enqueue,
  at_head, fill, discount_bps, is_taking_bids,
}
use stellar_exit_contracts.State.Auction.{Exit, Status}
use stellar_exit_contracts.State.Errors.{Error, AuctionError}
use stellar_exit_contracts.State.Events.{Event, AuctionEvent}
use stellar_exit_contracts.Host.Chain.{Address, Env, Chain}
use stellar_exit_contracts.Host.Call.{Call, ◌>>=◌, ◌>>◌, fail_if, pure, require_auth, publish}
use stellar_exit_contracts.Prelude.{ℕ, ◌&&◌, Bool, true, false, some, ltb, leb, not, is_some}
use stellar_exit_contracts.Prelude.Int.{ℤ, pos, leb_ℤ}

module _ {c : Chain} where
  unfoldable pub place_bid : Env → Address → ℕ → ℤ → Call c (Unit {0})
  place_bid e node exit_id usdc_amount = do
    require_auth e node
    config ← read_config
    exit ← read_exit exit_id
    require_live exit
    fail_if (is_taking_bids exit.status && ltb exit.closes_at e.timestamp)
        (Error.auction AuctionError.bidding_over)
    fail_if (leb_ℤ usdc_amount (pos 0)) (Error.auction AuctionError.invalid_amount)
    fail_if (leb_ℤ usdc_amount exit.best_usdc) (Error.auction AuctionError.bid_too_low)
    discount ← discount_bps exit.reference_usdc usdc_amount
    vault_commit e config node exit.asset usdc_amount discount
    release_prev exit.best_node e config exit
    write_exit (record exit { best_node = some node; best_usdc = usdc_amount })
    publish (
        Event.auction
          (AuctionEvent.bid_placed exit.asset exit_id node usdc_amount discount exit.best_node))

  -- The head of the line is only asked for an acceptable bid.
  abbrev fills : Bool → Env → Exit → Call c Bool
  fills true e exit = at_head e exit
  fills false e exit = pure false

  abbrev settle_or_queue : Bool → Env → Exit → Call c (Unit {0})
  settle_or_queue true e exit = fill e exit
  settle_or_queue false e exit = do
    config ← read_config
    position ← queue_enqueue e config exit.asset exit.id
    write_exit (record exit { status = Status.queued })

  unfoldable pub close : Env → ℕ → Call c (Unit {0})
  close e exit_id = do
    exit ← read_exit exit_id
    fail_if (not (is_taking_bids exit.status)) (Error.auction AuctionError.exit_closed)
    fail_if (leb e.timestamp exit.closes_at) (Error.auction AuctionError.still_bidding)
    filled ← fills (is_some exit.best_node && leb_ℤ exit.min_accept_usdc exit.best_usdc) e exit
    settle_or_queue filled e exit
