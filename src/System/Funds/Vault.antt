-- ===== src/System/Funds/Vault.antt =====
-- The calls of contracts/lp_vault/src/contract.rs that come from outside leave the tokens in escrow
-- where they are.
use stellar_exit_contracts.System.{IsWired}
use stellar_exit_contracts.System.Funds.{IsFunded, IsGuarded, kept-IsSecure}
use stellar_exit_contracts.System.Vault.{
  initialize-refused, commit-refused, release-refused, pay_out-refused,
}
use stellar_exit_contracts.Vault.Operations.{Operation, perform}
use stellar_exit_contracts.Vault.Lifecycle
use stellar_exit_contracts.Vault.Capital
use stellar_exit_contracts.Vault.Terms
use stellar_exit_contracts.Vault.Solvency.Backed.{found-NodeIsSound}
use stellar_exit_contracts.Vault.Solvency.Arithmetic.{eq-pos_part}
use stellar_exit_contracts.Vault.Effects.{IsAuthorized}
use stellar_exit_contracts.Vault.Effects.Capital.{
  deposit-Deposited, request_withdrawal-Requested, execute_withdrawal-Executed,
}
use stellar_exit_contracts.Router.Operations.{IsSecure}
use stellar_exit_contracts.Host.Chain.{Address, Env, Chain, World, Sep41, enter}
use stellar_exit_contracts.Host.Ledger.{balance-le_other}
use stellar_exit_contracts.Host.Call.{ok}
use stellar_exit_contracts.Prelude.{ℕ, ◌≡◌, ◌≢◌, refl, ap, ◌∙◌, sym, subst, Bool, some, arith}
use stellar_exit_contracts.Prelude.Int.{ℤ, pos, pos_part, ◌≤ℤ◌}

-- Tokens that others send leave the escrow where it is.
transfer-IsSecure :
    {c : Chain} (law : Sep41 c) (e : Env) (token from to : Address) (amount : ℤ) (w w' : World c)
    → pos 0 ≤ℤ amount
    → Chain.router_address c ≢ from
    → Chain.transfer c e token from to amount w.ledger ≡ some w'.ledger
    → w'.router ≡ w.router
    → IsSecure (Chain.router_address c) w
    → IsSecure (Chain.router_address c) w'
transfer-IsSecure {c} law e token from to amount w w' nonneg other moved router s = record {
  cover = record {
    positive = rw router s.cover.positive;
    covered = λ t. rw router (
        omega (
          arith,
          s.cover.covered t,
          balance-le_other law e token from to (pos_part amount) w.ledger w'.ledger
              (rw (← eq-pos_part amount nonneg) moved) t (Chain.router_address c) other,
        ));
  };
  fee = rw router s.fee;
}

-- A contract without a key is not who is let in.
not_authorized :
    (e : Env) (a holder : Address) → ¬ IsAuthorized e a → IsAuthorized e holder → a ≢ holder
not_authorized e a holder unsigned signed same = unsigned (subst (IsAuthorized e) (sym same) signed)

module _ {c : Chain} (law : Sep41 c) (self : Address) (e : Env) (g : IsGuarded c self e)
    (w w' : World c) (v : IsWired self w) (k : IsFunded w) where
  router_outside : ¬ IsAuthorized e (Chain.router_address c)
  router_outside a = ground (arith, a, g.external.uninvoked, g.external.router_unsigned)

  vault_outside : ¬ IsAuthorized e (Chain.vault_address c)
  vault_outside a = ground (arith, a, g.external.uninvoked, g.vault_unsigned)

  abbrev SameEscrow : Type 0
  SameEscrow = (w'.router ≡ w.router) × (w'.ledger ≡ w.ledger)

  same_escrow-IsSecure : SameEscrow → IsSecure (Chain.router_address c) w'
  same_escrow-IsSecure (router, ledger) = kept-IsSecure k.secure router ledger

  set_auction_kept : (a : Address) → Lifecycle.set_auction e a w ≡ ok (tt, w') → SameEscrow
  unfolding Lifecycle.set_auction
  set_auction_kept a h = (ground arith, ground arith)

  set_router_kept : (a : Address) → Lifecycle.set_router e a w ≡ ok (tt, w') → SameEscrow
  unfolding Lifecycle.set_router
  set_router_kept a h = (ground arith, ground arith)

  set_admin_kept : (a : Address) → Lifecycle.set_admin e a w ≡ ok (tt, w') → SameEscrow
  unfolding Lifecycle.set_admin
  set_admin_kept a h = (ground arith, ground arith)

  set_max_single_fill_bps_kept :
      (bps : ℕ) → Lifecycle.set_max_single_fill_bps e bps w ≡ ok (tt, w') → SameEscrow
  unfolding Lifecycle.set_max_single_fill_bps
  set_max_single_fill_bps_kept bps h = (ground arith, ground arith)

  set_appetite_kept :
      (node asset : Address) (exposure : ℤ) (discount : ℕ) (active : Bool)
      → Terms.set_appetite e node asset exposure discount active w ≡ ok (tt, w')
      → SameEscrow
  unfolding Terms.set_appetite
  set_appetite_kept node asset exposure discount active h = (ground arith, ground arith)

  reduce_exposure_kept :
      (node asset : Address) (amount : ℤ)
      → Terms.reduce_exposure e node asset amount w ≡ ok (tt, w')
      → SameEscrow
  unfolding Terms.reduce_exposure
  reduce_exposure_kept node asset amount h = (ground arith, ground arith)

  cancel_withdrawal_kept :
      (node : Address) → Capital.cancel_withdrawal e node w ≡ ok (tt, w') → SameEscrow
  unfolding Capital.cancel_withdrawal
  cancel_withdrawal_kept node h = (ground arith, ground arith)

  request_withdrawal_kept :
      (node : Address) (amount : ℤ)
      → Capital.request_withdrawal e node amount w ≡ ok (tt, w')
      → SameEscrow
  request_withdrawal_kept node amount h =
      rw ((request_withdrawal-Requested e node amount w w' h).result) (refl, refl)

  deposit-IsSecure :
      (node : Address) (amount : ℤ)
      → Capital.deposit e node amount w ≡ ok (tt, w')
      → IsSecure (Chain.router_address c) w'
  deposit-IsSecure node amount h =
      let f = deposit-Deposited e node amount w w' h in
      transfer-IsSecure law (enter e f.config.usdc) f.config.usdc node e.current amount w w'
        (omega (arith, f.positive))
        (not_authorized e (Chain.router_address c) node router_outside f.authorized)
        (rw (f.result) (f.moved)) (ap (λ (u : World c). u.router) f.result) k.secure

  execute_withdrawal-IsSecure :
      (node : Address)
      → e.current ≡ Chain.vault_address c
      → Capital.execute_withdrawal e node w ≡ ok (tt, w')
      → IsSecure (Chain.router_address c) w'
  execute_withdrawal-IsSecure node own h =
      let f = execute_withdrawal-Executed e node w w' h in
      let sound = found-NodeIsSound w node k.solvent f.state f.known in
      transfer-IsSecure law (enter e f.config.usdc) f.config.usdc e.current node f.req.amount w w'
        (ground (arith, sound.reserve_nonneg, f.pending)) (λ same. g.router_vault (same ∙ own))
        (rw (f.result) (f.moved)) (ap (λ (u : World c). u.router) f.result) k.secure

pub perform-IsSecure :
    {c : Chain} (law : Sep41 c) (self : Address) (op : Operation) (e : Env) (g : IsGuarded c self e)
    (w w' : World c)
    → e.current ≡ Chain.vault_address c
    → IsWired self w
    → IsFunded w
    → perform op e w ≡ ok (tt, w')
    → IsSecure (Chain.router_address c) w'
unfolding perform
perform-IsSecure law self (Operation.initialize admin usdc min cap lock) e g w w' own v k h =
    absurd (initialize-refused self e w w' g.external v admin usdc min cap lock h)
perform-IsSecure law self (Operation.set_auction a) e g w w' own v k h =
    same_escrow-IsSecure law self e g w w' v k (set_auction_kept law self e g w w' v k a h)
perform-IsSecure law self (Operation.set_router a) e g w w' own v k h =
    same_escrow-IsSecure law self e g w w' v k (set_router_kept law self e g w w' v k a h)
perform-IsSecure law self (Operation.set_admin a) e g w w' own v k h =
    same_escrow-IsSecure law self e g w w' v k (set_admin_kept law self e g w w' v k a h)
perform-IsSecure law self (Operation.set_max_single_fill_bps bps) e g w w' own v k h =
    same_escrow-IsSecure law self e g w w' v k
      (set_max_single_fill_bps_kept law self e g w w' v k bps h)
perform-IsSecure law self (Operation.set_appetite node asset exposure discount active) e g w w' own
      v k h =
    same_escrow-IsSecure law self e g w w' v k
      (set_appetite_kept law self e g w w' v k node asset exposure discount active h)
perform-IsSecure law self (Operation.reduce_exposure node asset amount) e g w w' own v k h =
    same_escrow-IsSecure law self e g w w' v k
      (reduce_exposure_kept law self e g w w' v k node asset amount h)
perform-IsSecure law self (Operation.cancel_withdrawal node) e g w w' own v k h =
    same_escrow-IsSecure law self e g w w' v k (cancel_withdrawal_kept law self e g w w' v k node h)
perform-IsSecure law self (Operation.request_withdrawal node amount) e g w w' own v k h =
    same_escrow-IsSecure law self e g w w' v k
      (request_withdrawal_kept law self e g w w' v k node amount h)
perform-IsSecure law self (Operation.deposit node amount) e g w w' own v k h =
    deposit-IsSecure law self e g w w' v k node amount h
perform-IsSecure law self (Operation.execute_withdrawal node) e g w w' own v k h =
    execute_withdrawal-IsSecure law self e g w w' v k node own h
perform-IsSecure law self (Operation.commit node asset amount discount) e g w w' own v k h =
    absurd (commit-refused self e w w' g.external v node asset amount discount h)
perform-IsSecure law self (Operation.release node asset amount) e g w w' own v k h =
    absurd (release-refused self e w w' g.external v node asset amount h)
perform-IsSecure law self (Operation.pay_out node asset to amount) e g w w' own v k h =
    absurd (pay_out-refused self e w w' g.external v node asset to amount h)
