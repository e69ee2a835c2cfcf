-- ===== src/Vault/Lifecycle.antt =====
-- contracts/lp_vault/src/contract.rs, "Lifecycle": initialisation and wiring.
use stellar_exit_contracts.Vault.Storage.{has_config, read_config, write_config}
use stellar_exit_contracts.State.Vault.{
  bps_denominator, default_max_single_fill_bps, default_withdraw_timelock,
}
use stellar_exit_contracts.State.Errors.{Error, VaultError}
use stellar_exit_contracts.Host.Chain.{Address, Env, Chain}
use stellar_exit_contracts.Host.Call.{Call, ◌>>=◌, ◌>>◌, fail_if, require_auth}
use stellar_exit_contracts.Prelude.{ℕ, ◌||◌, Option, some, none, ltb, ◌==◌, unwrap_or}
use stellar_exit_contracts.Prelude.Int.{ℤ, pos, ltb_ℤ}

module _ {c : Chain} where
  unfoldable pub initialize : Env → Address → Address → ℤ → Option ℕ → Option ℕ → Call c (Unit {0})
  initialize e admin usdc min_deposit max_single_fill_bps withdraw_timelock = do
    found ← has_config
    fail_if found (Error.vault VaultError.already_initialized)
    fail_if (ltb_ℤ min_deposit (pos 0)) (Error.vault VaultError.invalid_amount)
    let cap = unwrap_or max_single_fill_bps default_max_single_fill_bps
    fail_if (cap == 0 || ltb bps_denominator cap) (Error.vault VaultError.invalid_bps)
    write_config (record {
      admin = admin;
      usdc = usdc;
      auction = none;
      router = none;
      min_deposit = min_deposit;
      max_single_fill_bps = cap;
      withdraw_timelock = unwrap_or withdraw_timelock default_withdraw_timelock;
    })

  unfoldable pub set_auction : Env → Address → Call c (Unit {0})
  set_auction e auction = do
    config ← read_config
    require_auth e config.admin
    write_config (record config { auction = some auction })

  unfoldable pub set_router : Env → Address → Call c (Unit {0})
  set_router e router = do
    config ← read_config
    require_auth e config.admin
    write_config (record config { router = some router })

  unfoldable pub set_admin : Env → Address → Call c (Unit {0})
  set_admin e new_admin = do
    config ← read_config
    require_auth e config.admin
    write_config (record config { admin = new_admin })

  unfoldable pub set_max_single_fill_bps : Env → ℕ → Call c (Unit {0})
  set_max_single_fill_bps e bps = do
    config ← read_config
    require_auth e config.admin
    fail_if (bps == 0 || ltb bps_denominator bps) (Error.vault VaultError.invalid_bps)
    write_config (record config { max_single_fill_bps = bps })
