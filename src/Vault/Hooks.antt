-- ===== src/Vault/Hooks.antt =====
-- contracts/lp_vault/src/contract.rs, "Auction hooks" and "Router hook": capital is locked behind a
-- bid, unlocked, or paid out.
use stellar_exit_contracts.Vault.Storage.{
  read_config, read_node, write_node, read_appetite, write_appetite, read_withdrawal,
}
use stellar_exit_contracts.State.Vault.{WithdrawRequest, bps_denominator, min_backing_age}
use stellar_exit_contracts.State.Errors.{Error, VaultError}
use stellar_exit_contracts.State.Events.{Event, VaultEvent}
use stellar_exit_contracts.Host.Chain.{Address, Env, Chain}
use stellar_exit_contracts.Host.Call.{
  Call, ◌>>=◌, ◌>>◌, fail_if, ok_or, require_auth, checked, sub_u64, publish, transfer,
}
use stellar_exit_contracts.Prelude.{ℕ, ◌||◌, Option, some, none, ltb, not}
use stellar_exit_contracts.Prelude.Int.{ℤ, pos, ◌+ℤ◌, ◌-ℤ◌, ◌*ℤ◌, quot, ltb_ℤ, leb_ℤ}

-- `read_withdrawal(…).map(|w| w.amount).unwrap_or(0)`
abbrev pub reserved : Option WithdrawRequest → ℤ
reserved none = pos 0
reserved (some w) = w.amount

module _ {c : Chain} where
  unfoldable pub commit : Env → Address → Address → ℤ → ℕ → Call c (Unit {0})
  commit e node asset amount discount_bps = do
    config ← read_config
    auction ← ok_or config.auction (Error.vault VaultError.not_wired)
    require_auth e auction
    fail_if (leb_ℤ amount (pos 0)) (Error.vault VaultError.invalid_amount)
    found ← read_node node
    state ← ok_or found (Error.vault VaultError.unknown_node)
    terms ← read_appetite node asset
    appetite ← ok_or terms (Error.vault VaultError.no_appetite)
    fail_if (not appetite.active) (Error.vault VaultError.appetite_inactive)
    age ← sub_u64 e.timestamp appetite.backed_at
    fail_if (ltb age min_backing_age) (Error.vault VaultError.backing_too_young)
    fail_if (ltb discount_bps appetite.min_discount_bps)
        (Error.vault VaultError.discount_below_floor)
    pending ← read_withdrawal node
    unlocked ← checked (state.deposited -ℤ state.committed)
    free ← checked (unlocked -ℤ reserved pending)
    fail_if (ltb_ℤ free amount) (Error.vault VaultError.insufficient_free_balance)
    exposure ← checked (appetite.exposure +ℤ amount)
    fail_if (ltb_ℤ appetite.max_exposure exposure) (Error.vault VaultError.exposure_exceeded)
    scaled ← checked (state.deposited *ℤ pos config.max_single_fill_bps)
    fail_if (ltb_ℤ (quot scaled (pos bps_denominator)) amount)
        (Error.vault VaultError.single_fill_cap_exceeded)
    committed ← checked (state.committed +ℤ amount)
    write_node node (record state { committed = committed })
    write_appetite node asset (record appetite { exposure = exposure })
    publish (Event.vault (VaultEvent.committed node asset amount))

  unfoldable pub release : Env → Address → Address → ℤ → Call c (Unit {0})
  release e node asset amount = do
    config ← read_config
    auction ← ok_or config.auction (Error.vault VaultError.not_wired)
    require_auth e auction
    fail_if (leb_ℤ amount (pos 0)) (Error.vault VaultError.invalid_amount)
    found ← read_node node
    state ← ok_or found (Error.vault VaultError.unknown_node)
    terms ← read_appetite node asset
    appetite ← ok_or terms (Error.vault VaultError.no_appetite)
    fail_if (ltb_ℤ state.committed amount || ltb_ℤ appetite.exposure amount)
        (Error.vault VaultError.commit_underflow)
    committed ← checked (state.committed -ℤ amount)
    exposure ← checked (appetite.exposure -ℤ amount)
    write_node node (record state { committed = committed })
    write_appetite node asset (record appetite { exposure = exposure })
    publish (Event.vault (VaultEvent.released node asset amount))

  unfoldable pub pay_out : Env → Address → Address → Address → ℤ → Call c (Unit {0})
  pay_out e node asset to amount = do
    config ← read_config
    router ← ok_or config.router (Error.vault VaultError.not_wired)
    require_auth e router
    fail_if (leb_ℤ amount (pos 0)) (Error.vault VaultError.invalid_amount)
    found ← read_node node
    state ← ok_or found (Error.vault VaultError.unknown_node)
    terms ← read_appetite node asset
    appetite ← ok_or terms (Error.vault VaultError.no_appetite)
    fail_if (ltb_ℤ state.committed amount || ltb_ℤ state.deposited amount)
        (Error.vault VaultError.commit_underflow)
    committed ← checked (state.committed -ℤ amount)
    deposited ← checked (state.deposited -ℤ amount)
    filled ← checked (state.filled +ℤ amount)
    write_node node (record state { committed = committed; deposited = deposited; filled = filled })
    transfer e config.usdc e.current to amount
    publish (Event.vault (VaultEvent.paid_out node asset to amount))
