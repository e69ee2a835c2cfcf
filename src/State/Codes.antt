-- ===== src/State/Codes.antt =====
-- The numbers of the errors of contracts/ and testnet/faucet, as the `contracterror` enums give them.
use stellar_exit_contracts.State.Errors.{
  Error, VaultError, RouterError, QueueError, AuctionError, FaucetError,
}
use stellar_exit_contracts.Prelude.{ℕ, Option, some, none}

unfoldable pub vault_code : VaultError → ℕ
vault_code VaultError.already_initialized = 1
vault_code VaultError.not_initialized = 2
vault_code VaultError.not_admin = 3
vault_code VaultError.not_auction = 4
vault_code VaultError.not_router = 5
vault_code VaultError.not_wired = 6
vault_code VaultError.invalid_amount = 10
vault_code VaultError.below_min_deposit = 11
vault_code VaultError.unknown_node = 12
vault_code VaultError.insufficient_free_balance = 13
vault_code VaultError.withdrawal_pending = 14
vault_code VaultError.no_withdrawal_pending = 15
vault_code VaultError.timelock_not_elapsed = 16
vault_code VaultError.no_appetite = 20
vault_code VaultError.appetite_inactive = 21
vault_code VaultError.exposure_exceeded = 22
vault_code VaultError.discount_below_floor = 23
vault_code VaultError.backing_too_young = 24
vault_code VaultError.single_fill_cap_exceeded = 30
vault_code VaultError.commit_underflow = 31
vault_code VaultError.invalid_bps = 40

unfoldable pub router_code : RouterError → ℕ
router_code RouterError.already_initialized = 101
router_code RouterError.not_initialized = 102
router_code RouterError.not_auction = 103
router_code RouterError.not_wired = 104
router_code RouterError.invalid_amount = 110
router_code RouterError.invalid_bps = 111
router_code RouterError.already_escrowed = 112
router_code RouterError.nothing_escrowed = 113
router_code RouterError.exceeds_escrow = 114

unfoldable pub queue_code : QueueError → ℕ
queue_code QueueError.already_initialized = 201
queue_code QueueError.not_initialized = 202
queue_code QueueError.not_auction = 203
queue_code QueueError.already_queued = 204
queue_code QueueError.not_queued = 205
queue_code QueueError.queue_full = 206

unfoldable pub auction_code : AuctionError → ℕ
auction_code AuctionError.already_initialized = 301
auction_code AuctionError.not_initialized = 302
auction_code AuctionError.unknown_exit = 303
auction_code AuctionError.invalid_amount = 310
auction_code AuctionError.invalid_duration = 311
auction_code AuctionError.invalid_reference = 312
auction_code AuctionError.exit_closed = 320
auction_code AuctionError.bidding_over = 321
auction_code AuctionError.still_bidding = 322
auction_code AuctionError.bid_too_low = 323
auction_code AuctionError.no_bids = 324
auction_code AuctionError.reserve_not_met = 325
auction_code AuctionError.not_at_head = 326

unfoldable pub faucet_code : FaucetError → ℕ
faucet_code FaucetError.already_initialized = 901
faucet_code FaucetError.not_initialized = 902
faucet_code FaucetError.unknown_token = 903
faucet_code FaucetError.too_soon = 904
faucet_code FaucetError.invalid_amount = 905

-- The number that a refusal carries to the caller, if a contract refuses.
unfoldable pub code : Error → Option ℕ
code (Error.vault x) = some (vault_code x)
code (Error.router x) = some (router_code x)
code (Error.queue x) = some (queue_code x)
code (Error.auction x) = some (auction_code x)
code (Error.faucet x) = some (faucet_code x)
code (Error.trap x) = none
