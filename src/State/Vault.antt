-- ===== src/State/Vault.antt =====
-- contracts/lp_vault/src/storage.rs: the vault's types and what it keeps under each `DataKey`.
use stellar_exit_contracts.Prelude.{ℕ, ◌*◌, Bool, Option}
use stellar_exit_contracts.Prelude.Int.{ℤ}
use stellar_exit_contracts.Prelude.Dict.{Dict}

pub record Config : Type 0 where
  pub admin : ℕ
  pub usdc : ℕ
  pub auction : Option ℕ
  pub router : Option ℕ
  pub min_deposit : ℤ
  pub max_single_fill_bps : ℕ
  pub withdraw_timelock : ℕ

pub record Node : Type 0 where
  pub deposited : ℤ
  pub committed : ℤ
  pub filled : ℤ
  pub joined_at : ℕ

pub record Appetite : Type 0 where
  pub max_exposure : ℤ
  pub exposure : ℤ
  pub min_discount_bps : ℕ
  pub active : Bool
  pub backed_at : ℕ

pub record WithdrawRequest : Type 0 where
  pub amount : ℤ
  pub unlock_at : ℕ

pub record Storage : Type 0 where
  pub config : Option Config
  pub nodes : Dict Node
  pub appetites : ℕ → ℕ → Option Appetite
  pub withdrawals : ℕ → Option WithdrawRequest

abbrev pub bps_denominator : ℕ
bps_denominator = 10000

abbrev pub min_backing_age : ℕ
min_backing_age = 3600

abbrev pub default_max_single_fill_bps : ℕ
default_max_single_fill_bps = 3000

abbrev pub default_withdraw_timelock : ℕ
default_withdraw_timelock = 24 * 60 * 60
