-- ===== src/Vault/Capital.antt =====
-- contracts/lp_vault/src/contract.rs, "Node capital": deposits and timelocked withdrawals.
use stellar_exit_contracts.Vault.Storage.{
  read_config, read_node, write_node, read_withdrawal, write_withdrawal, clear_withdrawal,
}
use stellar_exit_contracts.State.Vault.{Node}
use stellar_exit_contracts.State.Errors.{Error, VaultError}
use stellar_exit_contracts.State.Events.{Event, VaultEvent}
use stellar_exit_contracts.Host.Chain.{Address, Env, Chain}
use stellar_exit_contracts.Host.Call.{
  Call, ◌>>=◌, ◌>>◌, fail_if, ok_or, require_auth, checked, add_u64, publish, transfer,
}
use stellar_exit_contracts.Prelude.{◌&&◌, Bool, ltb, unwrap_or, is_some}
use stellar_exit_contracts.Prelude.Int.{ℤ, pos, ◌+ℤ◌, ◌-ℤ◌, ltb_ℤ, leb_ℤ}

-- `a == 0`
abbrev is_zero : ℤ → Bool
is_zero a = leb_ℤ a (pos 0) && leb_ℤ (pos 0) a

-- What a node that was not seen before starts from.
abbrev pub new_node : Env → Node
new_node e = record {
  deposited = pos 0;
  committed = pos 0;
  filled = pos 0;
  joined_at = e.timestamp;
}

module _ {c : Chain} where
  unfoldable pub deposit : Env → Address → ℤ → Call c (Unit {0})
  deposit e node amount = do
    require_auth e node
    config ← read_config
    fail_if (leb_ℤ amount (pos 0)) (Error.vault VaultError.invalid_amount)
    found ← read_node node
    let state = unwrap_or found (new_node e)
    fail_if (is_zero state.deposited && ltb_ℤ amount config.min_deposit)
        (Error.vault VaultError.below_min_deposit)
    transfer e config.usdc node e.current amount
    deposited ← checked (state.deposited +ℤ amount)
    write_node node (record state { deposited = deposited })
    publish (Event.vault (VaultEvent.deposited node amount deposited))

  unfoldable pub request_withdrawal : Env → Address → ℤ → Call c (Unit {0})
  request_withdrawal e node amount = do
    require_auth e node
    config ← read_config
    fail_if (leb_ℤ amount (pos 0)) (Error.vault VaultError.invalid_amount)
    pending ← read_withdrawal node
    fail_if (is_some pending) (Error.vault VaultError.withdrawal_pending)
    found ← read_node node
    state ← ok_or found (Error.vault VaultError.unknown_node)
    free ← checked (state.deposited -ℤ state.committed)
    fail_if (ltb_ℤ free amount) (Error.vault VaultError.insufficient_free_balance)
    unlock_at ← add_u64 e.timestamp config.withdraw_timelock
    write_withdrawal node (record { amount = amount; unlock_at = unlock_at })
    publish (Event.vault (VaultEvent.withdraw_requested node amount unlock_at))

  unfoldable pub cancel_withdrawal : Env → Address → Call c (Unit {0})
  cancel_withdrawal e node = do
    require_auth e node
    config ← read_config
    pending ← read_withdrawal node
    req ← ok_or pending (Error.vault VaultError.no_withdrawal_pending)
    clear_withdrawal node
    publish (Event.vault (VaultEvent.withdraw_cancelled node req.amount))

  unfoldable pub execute_withdrawal : Env → Address → Call c (Unit {0})
  execute_withdrawal e node = do
    require_auth e node
    config ← read_config
    pending ← read_withdrawal node
    req ← ok_or pending (Error.vault VaultError.no_withdrawal_pending)
    fail_if (ltb e.timestamp req.unlock_at) (Error.vault VaultError.timelock_not_elapsed)
    found ← read_node node
    state ← ok_or found (Error.vault VaultError.unknown_node)
    free ← checked (state.deposited -ℤ state.committed)
    fail_if (ltb_ℤ free req.amount) (Error.vault VaultError.insufficient_free_balance)
    deposited ← checked (state.deposited -ℤ req.amount)
    write_node node (record state { deposited = deposited })
    clear_withdrawal node
    transfer e config.usdc e.current node req.amount
    publish (Event.vault (VaultEvent.withdrawn node req.amount deposited))
