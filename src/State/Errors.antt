-- ===== src/State/Errors.antt =====
-- The error enums of the five contracts, and their codes.

-- contracts/lp_vault/src/errors.rs
pub data VaultError : Type 0 where
  already_initialized not_initialized not_admin not_auction not_router not_wired : VaultError
  invalid_amount below_min_deposit unknown_node insufficient_free_balance : VaultError
  withdrawal_pending no_withdrawal_pending timelock_not_elapsed : VaultError
  no_appetite appetite_inactive exposure_exceeded discount_below_floor : VaultError
  backing_too_young single_fill_cap_exceeded commit_underflow invalid_bps : VaultError

-- contracts/settlement_router/src/lib.rs
pub data RouterError : Type 0 where
  already_initialized not_initialized not_auction not_wired : RouterError
  invalid_amount invalid_bps already_escrowed nothing_escrowed exceeds_escrow : RouterError

-- contracts/fifo_queue/src/lib.rs
pub data QueueError : Type 0 where
  already_initialized not_initialized not_auction already_queued not_queued queue_full : QueueError

-- contracts/exit_auction/src/lib.rs
pub data AuctionError : Type 0 where
  already_initialized not_initialized unknown_exit : AuctionError
  invalid_amount invalid_duration invalid_reference : AuctionError
  exit_closed bidding_over still_bidding bid_too_low no_bids reserve_not_met : AuctionError
  not_at_head : AuctionError

-- testnet/faucet/src/lib.rs
pub data FaucetError : Type 0 where
  already_initialized not_initialized unknown_token too_soon invalid_amount : FaucetError

-- What the host stops a call with: a failed `require_auth`, an arithmetic check, a token that
-- refused, a call of an address where no such contract lives.
pub data Trap : Type 0 where
  unauthorized overflow token_refused no_contract : Trap

-- A call ends in one of these. The caller of a contract that fails fails with the same one.
pub data Error : Type 0 where
  vault : VaultError → Error
  router : RouterError → Error
  queue : QueueError → Error
  auction : AuctionError → Error
  faucet : FaucetError → Error
  trap : Trap → Error
