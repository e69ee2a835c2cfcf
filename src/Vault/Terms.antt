-- ===== src/Vault/Terms.antt =====
-- contracts/lp_vault/src/contract.rs, "Appetite": the node's standing terms for one asset.
use stellar_exit_contracts.Vault.Storage.{read_config, read_node, read_appetite, write_appetite}
use stellar_exit_contracts.State.Vault.{Appetite, bps_denominator}
use stellar_exit_contracts.State.Errors.{Error, VaultError}
use stellar_exit_contracts.State.Events.{Event, VaultEvent}
use stellar_exit_contracts.Host.Chain.{Address, Env, Chain}
use stellar_exit_contracts.Host.Call.{
  Call, ◌>>=◌, ◌>>◌, fail_if, ok_or, require_auth, checked, pure, publish,
}
use stellar_exit_contracts.Prelude.{ℕ, ◌&&◌, Bool, Option, some, none, leb, if◌then◌else◌}
use stellar_exit_contracts.Prelude.Int.{ℤ, pos, ◌-ℤ◌, ltb_ℤ, leb_ℤ}

-- The exposure and the age that a new declaration of terms starts from.
abbrev pub carried_over : Env → Option Appetite → Bool → ℤ × ℕ
carried_over e none active = (pos 0, e.timestamp)
carried_over e (some prev) active =
    if prev.active && active then (prev.exposure, prev.backed_at) else (prev.exposure, e.timestamp)

module _ {c : Chain} where
  unfoldable pub set_appetite : Env → Address → Address → ℤ → ℕ → Bool → Call c (Unit {0})
  set_appetite e node asset max_exposure min_discount_bps active = do
    require_auth e node
    config ← read_config
    fail_if (ltb_ℤ max_exposure (pos 0)) (Error.vault VaultError.invalid_amount)
    fail_if (leb bps_denominator min_discount_bps) (Error.vault VaultError.invalid_bps)
    found ← read_node node
    state ← ok_or found (Error.vault VaultError.unknown_node)
    existing ← read_appetite node asset
    let carried = carried_over e existing active
    write_appetite node asset (record {
      max_exposure = max_exposure;
      exposure = carried.0;
      min_discount_bps = min_discount_bps;
      active = active;
      backed_at = carried.1;
    })
    publish (Event.vault (VaultEvent.appetite_set node asset max_exposure min_discount_bps active))

  -- What is left of an exposure; the subtraction is the code's checked one.
  abbrev pub reduced : ℤ → ℤ → Call c ℤ
  reduced exposure amount =
      if ltb_ℤ exposure amount then pure (pos 0) else checked (exposure -ℤ amount)

  unfoldable pub reduce_exposure : Env → Address → Address → ℤ → Call c (Unit {0})
  reduce_exposure e node asset amount = do
    require_auth e node
    config ← read_config
    fail_if (leb_ℤ amount (pos 0)) (Error.vault VaultError.invalid_amount)
    found ← read_appetite node asset
    appetite ← ok_or found (Error.vault VaultError.no_appetite)
    exposure ← reduced appetite.exposure amount
    write_appetite node asset (record appetite { exposure = exposure })
