-- ===== src/State/Faucet.antt =====
-- testnet/faucet/src/lib.rs: the faucet's types and storage.
use stellar_exit_contracts.Prelude.{ℕ, Option, List}
use stellar_exit_contracts.Prelude.Int.{ℤ}

pub record Config : Type 0 where
  pub admin : ℕ
  pub cooldown : ℕ

pub record Storage : Type 0 where
  pub config : Option Config
  pub drips : ℕ → Option ℤ
  pub tokens : Option (List ℕ)
  pub last : ℕ → ℕ → Option ℕ
