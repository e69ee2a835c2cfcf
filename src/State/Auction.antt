-- ===== src/State/Auction.antt =====
-- contracts/exit_auction/src/lib.rs: the auction's types and storage.
use stellar_exit_contracts.Prelude.{ℕ, ◌*◌, Option}
use stellar_exit_contracts.Prelude.Int.{ℤ}
use stellar_exit_contracts.Prelude.Dict.{Dict}

-- `Status::Open` is `taking_bids`, since `open` is a word of the language.
pub data Status : Type 0 where
  taking_bids settled queued cancelled : Status

pub record Config : Type 0 where
  pub admin : ℕ
  pub vault : ℕ
  pub router : ℕ
  pub queue : ℕ

pub record Exit : Type 0 where
  pub id : ℕ
  pub seller : ℕ
  pub asset : ℕ
  pub amount : ℤ
  pub reference_usdc : ℤ
  pub min_accept_usdc : ℤ
  pub opened_at : ℕ
  pub closes_at : ℕ
  pub status : Status
  pub best_node : Option ℕ
  pub best_usdc : ℤ

pub record Storage : Type 0 where
  pub config : Option Config
  pub next_id : Option ℕ
  pub exits : Dict Exit

abbrev pub default_duration : ℕ
default_duration = 300

abbrev pub min_duration : ℕ
min_duration = 60

abbrev pub max_duration : ℕ
max_duration = 24 * 60 * 60
