-- ===== src/System/Vault.antt =====
-- The calls of contracts/lp_vault/src/contract.rs that come from outside: those that the auction or the
-- router makes are refused, and the others lock and unlock nothing.
use stellar_exit_contracts.System.{IsWired, IsExternal}
use stellar_exit_contracts.System.Quiet.{IsQuiet}
use stellar_exit_contracts.Auction.Pledges.{committed_of-insert}
use stellar_exit_contracts.Vault.Operations.{Operation, perform}
use stellar_exit_contracts.Vault.Lifecycle
use stellar_exit_contracts.Vault.Capital
use stellar_exit_contracts.Vault.Terms
use stellar_exit_contracts.Vault.Hooks
use stellar_exit_contracts.Vault.Effects.Capital.{
  deposit-Deposited, credited, request_withdrawal-Requested, execute_withdrawal-Executed,
}
use stellar_exit_contracts.Vault.Effects.Hooks.{commit-Committed, release-Released, pay_out-PaidOut}
use stellar_exit_contracts.Host.Chain.{Address, Env, Chain, World}
use stellar_exit_contracts.Host.Call.{ok}
use stellar_exit_contracts.Prelude.{ℕ, ◌≡◌, refl, Bool, Option, arith}
use stellar_exit_contracts.Prelude.Int.{ℤ, ◌+ℤ◌, ◌-ℤ◌}

module _ {c : Chain} (e : Env) (w w' : World c) where
  set_auction-IsQuiet : (a : Address) → Lifecycle.set_auction e a w ≡ ok (tt, w') → IsQuiet w w'
  unfolding Lifecycle.set_auction
  set_auction-IsQuiet a h = ground arith

  set_router-IsQuiet : (a : Address) → Lifecycle.set_router e a w ≡ ok (tt, w') → IsQuiet w w'
  unfolding Lifecycle.set_router
  set_router-IsQuiet a h = ground arith

  set_admin-IsQuiet : (a : Address) → Lifecycle.set_admin e a w ≡ ok (tt, w') → IsQuiet w w'
  unfolding Lifecycle.set_admin
  set_admin-IsQuiet a h = ground arith

  set_max_single_fill_bps-IsQuiet :
      (bps : ℕ) → Lifecycle.set_max_single_fill_bps e bps w ≡ ok (tt, w') → IsQuiet w w'
  unfolding Lifecycle.set_max_single_fill_bps
  set_max_single_fill_bps-IsQuiet bps h = ground arith

  set_appetite-IsQuiet :
      (node asset : Address) (exposure : ℤ) (discount : ℕ) (active : Bool)
      → Terms.set_appetite e node asset exposure discount active w ≡ ok (tt, w')
      → IsQuiet w w'
  unfolding Terms.set_appetite
  set_appetite-IsQuiet node asset exposure discount active h = ground arith

  reduce_exposure-IsQuiet :
      (node asset : Address) (amount : ℤ)
      → Terms.reduce_exposure e node asset amount w ≡ ok (tt, w')
      → IsQuiet w w'
  unfolding Terms.reduce_exposure
  reduce_exposure-IsQuiet node asset amount h = ground arith

  deposit-IsQuiet :
      (node : Address) (amount : ℤ) → Capital.deposit e node amount w ≡ ok (tt, w') → IsQuiet w w'
  deposit-IsQuiet node amount h =
      let f = deposit-Deposited e node amount w w' h in
      rw (f.result) (record {
        auction = refl;
        escrows = refl;
        lines = refl;
        locked = λ m. ground (
          arith,
          committed_of-insert node m
              (record (credited e node w) { deposited = (credited e node w).deposited +ℤ amount })
              w.vault.nodes,
        );
        terms = λ m t there. there;
      })

  request_withdrawal-IsQuiet :
      (node : Address) (amount : ℤ)
      → Capital.request_withdrawal e node amount w ≡ ok (tt, w')
      → IsQuiet w w'
  request_withdrawal-IsQuiet node amount h =
      rw ((request_withdrawal-Requested e node amount w w' h).result) (record {
        auction = refl;
        escrows = refl;
        lines = refl;
        locked = λ m. refl;
        terms = λ m t there. there;
      })

  cancel_withdrawal-IsQuiet :
      (node : Address) → Capital.cancel_withdrawal e node w ≡ ok (tt, w') → IsQuiet w w'
  unfolding Capital.cancel_withdrawal
  cancel_withdrawal-IsQuiet node h = ground arith

  execute_withdrawal-IsQuiet :
      (node : Address) → Capital.execute_withdrawal e node w ≡ ok (tt, w') → IsQuiet w w'
  execute_withdrawal-IsQuiet node h =
      let f = execute_withdrawal-Executed e node w w' h in
      rw (f.result) (record {
        auction = refl;
        escrows = refl;
        lines = refl;
        locked = λ m. ground (
          arith,
          f.known,
          committed_of-insert node m
              (record (f.state) { deposited = f.state.deposited -ℤ f.req.amount }) w.vault.nodes,
        );
        terms = λ m t there. there;
      })

module _ {c : Chain} (self : Address) (e : Env) (w w' : World c)
    (x : IsExternal self (Chain.router_address c) e) (v : IsWired self w) where
  pub initialize-refused :
      (admin usdc : Address) (min : ℤ) (cap lock : Option ℕ)
      → ¬ (Lifecycle.initialize e admin usdc min cap lock w ≡ ok (tt, w'))
  unfolding Lifecycle.initialize
  initialize-refused admin usdc min cap lock h = ground (arith, v.vault_configured)

  pub commit-refused :
      (node asset : Address) (amount : ℤ) (discount : ℕ)
      → ¬ (Hooks.commit e node asset amount discount w ≡ ok (tt, w'))
  commit-refused node asset amount discount h =
      let f = commit-Committed e node asset amount discount w w' h in
      ground (
        arith, f.configured, f.wired, f.authorized, v.vault_configured, v.vault_auction,
        x.uninvoked, x.auction_unsigned,
      )

  pub release-refused :
      (node asset : Address) (amount : ℤ) → ¬ (Hooks.release e node asset amount w ≡ ok (tt, w'))
  release-refused node asset amount h =
      let f = release-Released e node asset amount w w' h in
      ground (
        arith, f.configured, f.wired, f.authorized, v.vault_configured, v.vault_auction,
        x.uninvoked, x.auction_unsigned,
      )

  pub pay_out-refused :
      (node asset to : Address) (amount : ℤ)
      → ¬ (Hooks.pay_out e node asset to amount w ≡ ok (tt, w'))
  pay_out-refused node asset to amount h =
      let f = pay_out-PaidOut e node asset amount to w w' h in
      ground (
        arith, f.configured, f.wired, f.authorized, v.vault_configured, v.vault_router, x.uninvoked,
        x.router_unsigned,
      )

-- From outside, the vault's calls are quiet.
pub perform-IsQuiet :
    {c : Chain} (self : Address) (op : Operation) (e : Env) (w w' : World c)
    → IsExternal self (Chain.router_address c) e
    → IsWired self w
    → perform op e w ≡ ok (tt, w')
    → IsQuiet w w'
unfolding perform
perform-IsQuiet self (Operation.initialize admin usdc min cap lock) e w w' x v h =
    absurd (initialize-refused self e w w' x v admin usdc min cap lock h)
perform-IsQuiet self (Operation.set_auction a) e w w' x v h = set_auction-IsQuiet e w w' a h
perform-IsQuiet self (Operation.set_router a) e w w' x v h = set_router-IsQuiet e w w' a h
perform-IsQuiet self (Operation.set_admin a) e w w' x v h = set_admin-IsQuiet e w w' a h
perform-IsQuiet self (Operation.set_max_single_fill_bps bps) e w w' x v h =
    set_max_single_fill_bps-IsQuiet e w w' bps h
perform-IsQuiet self (Operation.deposit node amount) e w w' x v h =
    deposit-IsQuiet e w w' node amount h
perform-IsQuiet self (Operation.request_withdrawal node amount) e w w' x v h =
    request_withdrawal-IsQuiet e w w' node amount h
perform-IsQuiet self (Operation.cancel_withdrawal node) e w w' x v h =
    cancel_withdrawal-IsQuiet e w w' node h
perform-IsQuiet self (Operation.execute_withdrawal node) e w w' x v h =
    execute_withdrawal-IsQuiet e w w' node h
perform-IsQuiet self (Operation.set_appetite node asset exposure discount active) e w w' x v h =
    set_appetite-IsQuiet e w w' node asset exposure discount active h
perform-IsQuiet self (Operation.reduce_exposure node asset amount) e w w' x v h =
    reduce_exposure-IsQuiet e w w' node asset amount h
perform-IsQuiet self (Operation.commit node asset amount discount) e w w' x v h =
    absurd (commit-refused self e w w' x v node asset amount discount h)
perform-IsQuiet self (Operation.release node asset amount) e w w' x v h =
    absurd (release-refused self e w w' x v node asset amount h)
perform-IsQuiet self (Operation.pay_out node asset to amount) e w w' x v h =
    absurd (pay_out-refused self e w w' x v node asset to amount h)
