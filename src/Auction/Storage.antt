-- ===== src/Auction/Storage.antt =====
-- The internals of contracts/exit_auction/src/lib.rs: storage, the tests on an exit, the discount and
-- the calls of the other contracts.
use stellar_exit_contracts.Queue
use stellar_exit_contracts.Router
use stellar_exit_contracts.Vault.Hooks
use stellar_exit_contracts.State.Auction.{Config, Exit, Status}
use stellar_exit_contracts.State.Vault.{bps_denominator}
use stellar_exit_contracts.State.Errors.{Error, AuctionError}
use stellar_exit_contracts.Host.Chain.{Address, Env, Chain}
use stellar_exit_contracts.Host.Call.{
  Call, ◌>>=◌, ◌>>◌, fail_if, ok_or, modify, pure, checked, checked_div, call_contract,
}
use stellar_exit_contracts.Prelude.{ℕ, Bool, true, false, Option, some, none, ◌==◌, not}
use stellar_exit_contracts.Prelude.Int.{ℤ, pos, ◌-ℤ◌, ◌*ℤ◌, leb_ℤ, ltb_ℤ, as_u32}
use stellar_exit_contracts.Prelude.Dict.{lookup, insert}

-- `status == Status::Queued`
abbrev pub is_queued : Status → Bool
is_queued Status.queued = true
is_queued _ = false

-- `status == Status::Open`
abbrev pub is_taking_bids : Status → Bool
is_taking_bids Status.taking_bids = true
is_taking_bids _ = false

-- The match of `require_live`.
abbrev pub is_live : Status → Bool
is_live Status.taking_bids = true
is_live Status.queued = true
is_live _ = false

-- The match of `at_head` on the head of the line.
abbrev pub lets_through : Option ℕ → ℕ → Bool
lets_through none id = true
lets_through (some head) id = head == id

module _ {c : Chain} where
  abbrev pub read_config : Call c Config
  read_config w = ok_or w.auction.config (Error.auction AuctionError.not_initialized) w

  abbrev pub write_config : Config → Call c (Unit {0})
  write_config config =
      modify (λ w. record w { auction = record (w.auction) { config = some config } })

  abbrev pub write_next_id : ℕ → Call c (Unit {0})
  write_next_id id = modify (λ w. record w { auction = record (w.auction) { next_id = some id } })

  abbrev pub read_exit : ℕ → Call c Exit
  read_exit exit_id w =
      ok_or (lookup exit_id w.auction.exits) (Error.auction AuctionError.unknown_exit) w

  abbrev pub write_exit : Exit → Call c (Unit {0})
  write_exit exit = modify (λ w. record w {
    auction = record (w.auction) { exits = insert exit.id exit w.auction.exits };
  })

  abbrev pub require_live : Exit → Call c (Unit {0})
  require_live exit = fail_if (not (is_live exit.status)) (Error.auction AuctionError.exit_closed)

  -- `VaultClient`
  unfoldable pub vault_commit : Env → Config → Address → Address → ℤ → ℕ → Call c (Unit {0})
  vault_commit e config node asset amount discount_bps =
      call_contract e (Chain.vault_address c) config.vault
        (λ inner. Hooks.commit inner node asset amount discount_bps)

  unfoldable pub vault_release : Env → Config → Address → Address → ℤ → Call c (Unit {0})
  vault_release e config node asset amount =
      call_contract e (Chain.vault_address c) config.vault
        (λ inner. Hooks.release inner node asset amount)

  -- `RouterClient`
  unfoldable pub router_escrow : Env → Config → ℕ → Address → Address → ℤ → Call c (Unit {0})
  router_escrow e config exit_id seller asset amount =
      call_contract e (Chain.router_address c) config.router
        (λ inner. Router.escrow inner exit_id seller asset amount)

  unfoldable pub router_settle : Env → Config → ℕ → Address → ℤ → ℤ → Call c (Unit {0})
  router_settle e config exit_id node token_amount usdc_amount =
      call_contract e (Chain.router_address c) config.router
        (λ inner. Router.settle inner exit_id node token_amount usdc_amount)

  unfoldable pub router_refund : Env → Config → ℕ → Call c (Unit {0})
  router_refund e config exit_id =
      call_contract e (Chain.router_address c) config.router (λ inner. Router.refund inner exit_id)

  -- `QueueClient`
  unfoldable pub queue_enqueue : Env → Config → Address → ℕ → Call c ℕ
  queue_enqueue e config asset exit_id =
      call_contract e (Chain.queue_address c) config.queue
        (λ inner. Queue.enqueue inner asset exit_id)

  unfoldable pub queue_dequeue : Env → Config → Address → ℕ → Call c (Unit {0})
  queue_dequeue e config asset exit_id =
      call_contract e (Chain.queue_address c) config.queue
        (λ inner. Queue.dequeue inner asset exit_id)

  unfoldable pub queue_head : Env → Config → Address → Call c (Option ℕ)
  queue_head e config asset =
      call_contract e (Chain.queue_address c) config.queue (λ inner. Queue.head asset)

  unfoldable pub at_head : Env → Exit → Call c Bool
  at_head e exit = do
    config ← read_config
    head ← queue_head e config exit.asset
    pure (lets_through head exit.id)

  -- `if exit.status == Status::Queued { dequeue }`
  abbrev pub dequeue_if_queued : Bool → Env → Config → Exit → Call c (Unit {0})
  dequeue_if_queued true e config exit = queue_dequeue e config exit.asset exit.id
  dequeue_if_queued false e config exit = pure tt

  unfoldable pub fill : Env → Exit → Call c (Unit {0})
  fill e exit = do
    fail_if (ltb_ℤ exit.best_usdc exit.min_accept_usdc) (Error.auction AuctionError.reserve_not_met)
    first ← at_head e exit
    fail_if (not first) (Error.auction AuctionError.not_at_head)
    config ← read_config
    node ← ok_or exit.best_node (Error.auction AuctionError.no_bids)
    router_settle e config exit.id node exit.amount exit.best_usdc
    dequeue_if_queued (is_queued exit.status) e config exit
    write_exit (record exit { status = Status.settled })

  -- `if let Some(prev) = best_node { release }`
  abbrev pub release_prev : Option Address → Env → Config → Exit → Call c (Unit {0})
  release_prev none e config exit = pure tt
  release_prev (some prev) e config exit = vault_release e config prev exit.asset exit.best_usdc

  unfoldable pub release_best : Env → Config → Exit → Call c (Unit {0})
  release_best e config exit = release_prev exit.best_node e config exit

  abbrev discounted : Bool → ℤ → ℤ → Call c ℕ
  discounted true reference_usdc usdc_amount = pure 0
  discounted false reference_usdc usdc_amount = do
    gap ← checked (reference_usdc -ℤ usdc_amount)
    scaled ← checked (gap *ℤ pos bps_denominator)
    bps ← checked_div scaled reference_usdc
    pure (as_u32 bps)

  unfoldable pub discount_bps : ℤ → ℤ → Call c ℕ
  discount_bps reference_usdc usdc_amount =
      discounted (leb_ℤ reference_usdc usdc_amount) reference_usdc usdc_amount
