-- ===== src/State/Events.antt =====
-- The events that the contracts publish, a constructor for each `contractevent` struct, with its
-- fields in order.
use stellar_exit_contracts.Prelude.{ℕ, Bool, Option}
use stellar_exit_contracts.Prelude.Int.{ℤ}

-- contracts/lp_vault/src/events.rs
pub data VaultEvent : Type 0 where
  deposited : (node : ℕ) (amount total_deposited : ℤ) → VaultEvent
  withdrawn : (node : ℕ) (amount total_deposited : ℤ) → VaultEvent
  withdraw_requested : (node : ℕ) (amount : ℤ) (unlock_at : ℕ) → VaultEvent
  withdraw_cancelled : (node : ℕ) (amount : ℤ) → VaultEvent
  appetite_set :
      (node asset : ℕ) (max_exposure : ℤ) (min_discount_bps : ℕ) (active : Bool) → VaultEvent
  committed : (node asset : ℕ) (amount : ℤ) → VaultEvent
  released : (node asset : ℕ) (amount : ℤ) → VaultEvent
  paid_out : (node asset to : ℕ) (amount : ℤ) → VaultEvent

-- contracts/settlement_router/src/lib.rs
pub data RouterEvent : Type 0 where
  escrowed : (asset exit_id seller : ℕ) (amount : ℤ) → RouterEvent
  settled :
      (asset exit_id seller node : ℕ) (token_amount usdc_gross protocol_fee usdc_net remaining : ℤ)
      → RouterEvent
  refunded : (asset exit_id seller : ℕ) (amount : ℤ) → RouterEvent

-- contracts/fifo_queue/src/lib.rs
pub data QueueEvent : Type 0 where
  queued : (asset exit_id position depth : ℕ) → QueueEvent
  dequeued : (asset exit_id depth : ℕ) → QueueEvent

-- contracts/exit_auction/src/lib.rs
pub data AuctionEvent : Type 0 where
  exit_opened :
      (asset exit_id seller : ℕ) (amount reference_usdc min_accept_usdc : ℤ) (closes_at : ℕ)
      → AuctionEvent
  bid_placed :
      (asset exit_id node : ℕ) (usdc_amount : ℤ) (discount_bps : ℕ) (outbid : Option ℕ)
      → AuctionEvent
  exit_cancelled : (asset exit_id seller : ℕ) → AuctionEvent

-- testnet/faucet/src/lib.rs
pub data FaucetEvent : Type 0 where
  claimed : (token to : ℕ) (amount : ℤ) (next_at : ℕ) → FaucetEvent
  drip_set : (token : ℕ) (amount : ℤ) → FaucetEvent

pub data Event : Type 0 where
  vault : VaultEvent → Event
  router : RouterEvent → Event
  queue : QueueEvent → Event
  auction : AuctionEvent → Event
  faucet : FaucetEvent → Event
