-- ===== src/State/Router.antt =====
-- contracts/settlement_router/src/lib.rs: the router's types and storage.
use stellar_exit_contracts.Prelude.{ℕ, Option}
use stellar_exit_contracts.Prelude.Int.{ℤ}
use stellar_exit_contracts.Prelude.Dict.{Dict}

pub record Config : Type 0 where
  pub admin : ℕ
  pub vault : ℕ
  pub usdc : ℕ
  pub treasury : ℕ
  pub auction : Option ℕ
  pub protocol_fee_bps : ℕ

pub record Escrow : Type 0 where
  pub seller : ℕ
  pub asset : ℕ
  pub amount : ℤ

pub record Storage : Type 0 where
  pub config : Option Config
  pub escrows : Dict Escrow

abbrev pub max_protocol_fee_bps : ℕ
max_protocol_fee_bps = 500
