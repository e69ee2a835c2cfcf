-- ===== src/Auction/Queries.antt =====
-- contracts/exit_auction/src/lib.rs, "Queries".
use stellar_exit_contracts.Auction.Storage.{read_config, read_exit, discount_bps}
use stellar_exit_contracts.State.Auction.{Config, Exit}
use stellar_exit_contracts.State.Errors.{Error, AuctionError}
use stellar_exit_contracts.Host.Chain.{Chain}
use stellar_exit_contracts.Host.Call.{Call, ◌>>=◌, ◌>>◌, fail_if, gets}
use stellar_exit_contracts.Prelude.{ℕ, Option, unwrap_or}
use stellar_exit_contracts.Prelude.Int.{ℤ, pos, leb_ℤ}
use stellar_exit_contracts.Prelude.Dict.{lookup}

module _ {c : Chain} where
  unfoldable pub get_config : Call c Config
  get_config = read_config

  unfoldable pub get_exit : ℕ → Call c (Option Exit)
  get_exit exit_id = gets (λ w. lookup exit_id w.auction.exits)

  unfoldable pub next_id : Call c ℕ
  next_id = gets (λ w. unwrap_or w.auction.next_id 1)

  unfoldable pub quote_discount_bps : ℕ → ℤ → Call c ℕ
  quote_discount_bps exit_id usdc_amount = do
    exit ← read_exit exit_id
    fail_if (leb_ℤ usdc_amount (pos 0)) (Error.auction AuctionError.invalid_amount)
    discount_bps exit.reference_usdc usdc_amount
