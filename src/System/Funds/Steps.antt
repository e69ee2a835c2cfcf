-- ===== src/System/Funds/Steps.antt =====
-- The calls that contracts/exit_auction/src/lib.rs makes keep the vault and the router funded.
use stellar_exit_contracts.System.Funds.{
  IsFunded, IsGuarded, kept-IsSolvent, kept-IsSecure, kept-IsFunded,
}
use stellar_exit_contracts.Auction.Storage.{
  vault_commit, release_prev, router_escrow, router_settle, router_refund, dequeue_if_queued,
}
use stellar_exit_contracts.Auction.Frame.{
  vault_commit-Committed, vault_release-Released, router_escrow-Escrowed, router_settle-Settled,
  router_refund-Refunded,
}
use stellar_exit_contracts.Auction.Effects.Filling.{dequeue_if_queued-OutsideQueue}
use stellar_exit_contracts.Router
use stellar_exit_contracts.Router.Operations as RouterOperations
use stellar_exit_contracts.Router.Effects.{vault_pay_out-PaidOut}
use stellar_exit_contracts.Router.Payment.{pay_fee-cases}
use stellar_exit_contracts.Router.{pay_fee}
use stellar_exit_contracts.Router.Cover.{IsPositive}
use stellar_exit_contracts.Router.Cover.Steps.{spared}
use stellar_exit_contracts.Vault.Effects.{IsAuthorized}
use stellar_exit_contracts.Vault.Solvency.{IsSolvent, IsOutside}
use stellar_exit_contracts.Vault.Solvency.Hooks.{
  Committed-IsSolvent, Released-IsSolvent, PaidOut-IsSolvent,
}
use stellar_exit_contracts.Vault.Operations.Reachable.{Elsewhere-IsSolvent}
use stellar_exit_contracts.State.Auction.{Config, Exit}
use stellar_exit_contracts.State.Router as RouterState
use stellar_exit_contracts.Host.Chain.{Address, Env, Chain, World, Sep41, enter}
use stellar_exit_contracts.Host.Call.{ok, call_contract-eq-ok}
use stellar_exit_contracts.Prelude.{
  ℕ, ◌≡◌, ◌≢◌, refl, ap, subst, sym, inl, inr, Bool, Option, none, some, arith,
}
use stellar_exit_contracts.Prelude.Int.{ℤ, pos, ◌<ℤ◌}

module _ {c : Chain} (e : Env) (config : Config) (w w' : World c) (k : IsFunded w) where
  pub commit-IsFunded :
      (node asset : Address) (amount : ℤ) (discount : ℕ)
      → vault_commit e config node asset amount discount w ≡ ok (tt, w')
      → IsFunded w'
  commit-IsFunded node asset amount discount h =
      let f = vault_commit-Committed e config node asset amount w w' discount h in
      record {
        solvent = Committed-IsSolvent _ node asset amount w w' k.solvent discount f;
        secure = rw (f.result) (kept-IsSecure k.secure refl refl);
      }

  pub release-IsFunded :
      (prev : Option Address) (exit : Exit)
      → release_prev prev e config exit w ≡ ok (tt, w')
      → IsFunded w'
  release-IsFunded none exit h = kept-IsFunded k (ground arith) (ground arith) (ground arith)
  release-IsFunded (some prev) exit h =
      let f = vault_release-Released e config prev exit.asset exit.best_usdc w w' h in
      record {
        solvent = Released-IsSolvent _ prev exit.asset exit.best_usdc w w' k.solvent f;
        secure = rw (f.result) (kept-IsSecure k.secure refl refl);
      }

  pub dequeue-IsFunded :
      (queued : Bool) (exit : Exit)
      → dequeue_if_queued queued e config exit w ≡ ok (tt, w')
      → IsFunded w'
  dequeue-IsFunded queued exit h =
      let q = dequeue_if_queued-OutsideQueue queued e config exit w w' h in
      kept-IsFunded k q.vault q.router q.ledger

-- Tokens that others send leave the vault's USDC where it is.
module _ {c : Chain} (law : Sep41 c) (e : Env) (token from to : Address) (amount : ℤ)
    (w w' : World c) (positive : pos 0 <ℤ amount) (other : Chain.vault_address c ≢ from)
    (moved : Chain.transfer c e token from to amount w.ledger ≡ some w'.ledger) where
  pub transfer-IsSolvent :
      IsSolvent (Chain.vault_address c) w
      → w'.vault ≡ w.vault
      → IsSolvent (Chain.vault_address c) w'
  transfer-IsSolvent s vault = Elsewhere-IsSolvent (Chain.vault_address c) s (record {
    vault = vault;
    usdc = λ config h.
        spared law e token from to amount w.ledger w'.ledger positive moved config.usdc
          (Chain.vault_address c) other;
  })

pub pay_fee-IsSolvent :
    {c : Chain} (law : Sep41 c) (e : Env) (config : RouterState.Config) (node asset : Address)
    (fee : ℤ) (w w' : World c)
    → IsSolvent (Chain.vault_address c) w
    → pay_fee e config node asset fee w ≡ ok (tt, w')
    → IsSolvent (Chain.vault_address c) w'
pay_fee-IsSolvent law e config node asset fee w w' s h =
    elim (pay_fee-cases e config node asset w w' fee h) [
      | inl (_, p) ↦ PaidOut-IsSolvent _ node asset fee w w' s config.treasury law p
      | inr (_, same) ↦ rw same s
    ]

module _ {c : Chain} (law : Sep41 c) (e : Env) (g : IsGuarded c e.current e) (config : Config)
    (exit_id : ℕ) (w w' : World c) (k : IsFunded w) where
  -- Inside a call that the auction makes, neither the router nor the vault has signed.
  router-IsOutside : IsOutside (enter e (Chain.router_address c))
  router-IsOutside a = ground (arith, a, g.self_router, g.external.router_unsigned)

  vault_outside :
      (holder : Address)
      → IsAuthorized (enter e (Chain.router_address c)) holder
      → Chain.vault_address c ≢ holder
  vault_outside holder a same = ground (
    arith,
    subst (IsAuthorized (enter e (Chain.router_address c))) (sym same) a,
    g.self_vault,
    g.vault_unsigned,
  )

  pub escrow-IsFunded :
      (seller asset : Address) (amount : ℤ)
      → router_escrow e config exit_id seller asset amount w ≡ ok (tt, w')
      → IsFunded w'
  unfolding router_escrow RouterOperations.perform
  escrow-IsFunded seller asset amount h =
      let f = router_escrow-Escrowed e config exit_id w w' seller asset amount h in
      record {
        solvent =
            kept-IsSolvent
              (transfer-IsSolvent law _ asset seller _ amount w (record w { ledger = f.ledger })
                f.positive (vault_outside seller f.signed) f.moved k.solvent refl)
              (ap (λ (u : World c). u.vault) f.result) (ap (λ (u : World c). u.ledger) f.result);
        secure =
            RouterOperations.perform-IsSecure (RouterOperations.escrow exit_id seller asset amount)
              (enter e (Chain.router_address c)) w w' law router-IsOutside g.router_vault k.secure
              (call_contract-eq-ok e (Chain.router_address c) config.router
                (λ inner. Router.escrow inner exit_id seller asset amount) w w' h);
      }

  pub refund-IsFunded : router_refund e config exit_id w ≡ ok (tt, w') → IsFunded w'
  unfolding router_refund RouterOperations.perform
  refund-IsFunded h =
      let f = router_refund-Refunded e config exit_id w w' h in
      let positive = subst IsPositive f.stored (k.secure.cover.positive exit_id) in
      record {
        solvent =
            kept-IsSolvent
              (transfer-IsSolvent law _ f.held.asset _ f.held.seller f.held.amount w
                (record w { ledger = f.ledger }) positive (λ same. g.router_vault (sym same))
                f.moved k.solvent refl)
              (ap (λ (u : World c). u.vault) f.result) (ap (λ (u : World c). u.ledger) f.result);
        secure =
            RouterOperations.perform-IsSecure (RouterOperations.refund exit_id)
              (enter e (Chain.router_address c)) w w' law router-IsOutside g.router_vault k.secure
              (call_contract-eq-ok e (Chain.router_address c) config.router
                (λ inner. Router.refund inner exit_id) w w' h);
      }

  pub settle-IsFunded :
      (node : Address) (token_amount usdc_amount : ℤ)
      → router_settle e config exit_id node token_amount usdc_amount w ≡ ok (tt, w')
      → IsFunded w'
  unfolding router_settle RouterOperations.perform
  settle-IsFunded node token_amount usdc_amount h =
      let s = router_settle-Settled e config exit_id w w' node token_amount usdc_amount h in
      let p =
        vault_pay_out-PaidOut _ s.config node s.held.asset s.held.seller s.net w s.paid
          s.to_seller in
      let paid =
        PaidOut-IsSolvent _ node s.held.asset s.net w s.paid k.solvent s.held.seller law p in
      let levied =
        pay_fee-IsSolvent law _ s.config node s.held.asset s.fee s.paid s.levied paid
          s.to_treasury in
      let moved =
        transfer-IsSolvent law _ s.held.asset _ node token_amount s.levied
          (record (s.levied) { ledger = s.ledger }) s.tokens_positive
          (λ same. g.router_vault (sym same)) s.moved levied refl in
      record {
        solvent = kept-IsSolvent moved s.vault s.result_ledger;
        secure =
            RouterOperations.perform-IsSecure
              (RouterOperations.settle exit_id node token_amount usdc_amount)
              (enter e (Chain.router_address c)) w w' law router-IsOutside g.router_vault k.secure
              (call_contract-eq-ok e (Chain.router_address c) config.router
                (λ inner. Router.settle inner exit_id node token_amount usdc_amount) w w' h);
      }
