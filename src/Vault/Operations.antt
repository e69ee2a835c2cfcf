-- ===== src/Vault/Operations.antt =====
-- The vault's entry points that change its state, as one type: a call of the vault, and the worlds
-- that calls lead to (contracts/lp_vault/src/contract.rs, `impl LpVault`).
pub mod Reachable
use stellar_exit_contracts.Vault.Lifecycle
use stellar_exit_contracts.Vault.Capital
use stellar_exit_contracts.Vault.Terms
use stellar_exit_contracts.Vault.Hooks
use stellar_exit_contracts.Host.Chain.{Address, Env, Chain}
use stellar_exit_contracts.Host.Call.{Call}
use stellar_exit_contracts.Prelude.{ℕ, Bool, Option}
use stellar_exit_contracts.Prelude.Int.{ℤ}

pub data Operation : Type 0 where
  initialize : Address → Address → ℤ → Option ℕ → Option ℕ → Operation
  set_auction set_router set_admin : Address → Operation
  set_max_single_fill_bps : ℕ → Operation
  deposit request_withdrawal : Address → ℤ → Operation
  cancel_withdrawal execute_withdrawal : Address → Operation
  set_appetite : Address → Address → ℤ → ℕ → Bool → Operation
  reduce_exposure : Address → Address → ℤ → Operation
  commit : Address → Address → ℤ → ℕ → Operation
  release : Address → Address → ℤ → Operation
  pay_out : Address → Address → Address → ℤ → Operation

module _ {c : Chain} where
  -- The call that an operation names.
  unfoldable pub perform : Operation → Env → Call c (Unit {0})
  perform (Operation.initialize admin usdc min cap lock) e =
      Lifecycle.initialize e admin usdc min cap lock
  perform (Operation.set_auction a) e = Lifecycle.set_auction e a
  perform (Operation.set_router a) e = Lifecycle.set_router e a
  perform (Operation.set_admin a) e = Lifecycle.set_admin e a
  perform (Operation.set_max_single_fill_bps bps) e = Lifecycle.set_max_single_fill_bps e bps
  perform (Operation.deposit node amount) e = Capital.deposit e node amount
  perform (Operation.request_withdrawal node amount) e = Capital.request_withdrawal e node amount
  perform (Operation.cancel_withdrawal node) e = Capital.cancel_withdrawal e node
  perform (Operation.execute_withdrawal node) e = Capital.execute_withdrawal e node
  perform (Operation.set_appetite node asset exposure discount active) e =
      Terms.set_appetite e node asset exposure discount active
  perform (Operation.reduce_exposure node asset amount) e =
      Terms.reduce_exposure e node asset amount
  perform (Operation.commit node asset amount discount) e =
      Hooks.commit e node asset amount discount
  perform (Operation.release node asset amount) e = Hooks.release e node asset amount
  perform (Operation.pay_out node asset to amount) e = Hooks.pay_out e node asset to amount
