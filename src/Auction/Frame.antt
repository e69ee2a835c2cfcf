-- ===== src/Auction/Frame.antt =====
-- What the calls that contracts/exit_auction/src/lib.rs makes leave alone: no other contract writes
-- the auction's storage, nor that of a third.
use stellar_exit_contracts.Auction.Storage.{
  vault_commit, vault_release, release_prev, router_escrow, router_settle, router_refund,
  queue_enqueue, queue_dequeue,
}
use stellar_exit_contracts.Queue
use stellar_exit_contracts.Queue.Calls.{Entered, enqueue-Entered, Left, dequeue-Left}
use stellar_exit_contracts.Router
use stellar_exit_contracts.Router.{pay_fee}
use stellar_exit_contracts.Router.Effects.{
  Escrowed, escrow-Escrowed, Refunded, refund-Refunded, vault_pay_out-PaidOut,
}
use stellar_exit_contracts.Router.Payment.{pay_fee-cases}
use stellar_exit_contracts.Router.Settlement.{Settled, settle-Settled}
use stellar_exit_contracts.Vault.Hooks
use stellar_exit_contracts.Vault.Effects.Hooks.{
  Committed, commit-Committed, Released, release-Released,
}
use stellar_exit_contracts.State.Auction.{Config, Exit}
use stellar_exit_contracts.Host.Chain.{Address, Env, Chain, World, enter}
use stellar_exit_contracts.Host.Call.{ok, call_contract-eq-ok}
use stellar_exit_contracts.Prelude.{ℕ, ◌≡◌, refl, ◌∙◌, inl, inr, Option, some, none, arith}
use stellar_exit_contracts.Prelude.Int.{ℤ}

module _ {c : Chain} where
  -- The storages that a call of the vault does not touch.
  pub record OutsideVault (w w' : World c) : Type 0 where
    pub auction : w'.auction ≡ w.auction
    pub router : w'.router ≡ w.router
    pub queue : w'.queue ≡ w.queue

  module _ (e : Env) (config : Config) (node asset : Address) (amount : ℤ) (w w' : World c) where
    pub vault_commit-Committed :
        (discount : ℕ)
        → vault_commit e config node asset amount discount w ≡ ok (tt, w')
        → Committed (enter e (Chain.vault_address c)) node asset amount discount w w'
    unfolding vault_commit
    vault_commit-Committed discount h = commit-Committed _ node asset amount discount w w' (
        call_contract-eq-ok e (Chain.vault_address c) config.vault
          (λ inner. Hooks.commit inner node asset amount discount) w w' h)

    pub vault_commit-OutsideVault :
        (discount : ℕ)
        → vault_commit e config node asset amount discount w ≡ ok (tt, w')
        → OutsideVault w w'
    vault_commit-OutsideVault discount h =
        rw ((vault_commit-Committed discount h).result)
          (record { auction = refl; router = refl; queue = refl })

    pub vault_release-Released :
        vault_release e config node asset amount w ≡ ok (tt, w')
        → Released (enter e (Chain.vault_address c)) node asset amount w w'
    unfolding vault_release
    vault_release-Released h = release-Released _ node asset amount w w' (
        call_contract-eq-ok e (Chain.vault_address c) config.vault
          (λ inner. Hooks.release inner node asset amount) w w' h)

  pub release_prev-OutsideVault :
      (prev : Option Address) (e : Env) (config : Config) (exit : Exit) (w w' : World c)
      → release_prev prev e config exit w ≡ ok (tt, w')
      → OutsideVault w w'
  release_prev-OutsideVault none e config exit w w' h = ground arith
  release_prev-OutsideVault (some prev) e config exit w w' h =
      rw ((vault_release-Released e config prev exit.asset exit.best_usdc w w' h).result)
        (record { auction = refl; router = refl; queue = refl })

  -- The storages that a call of the router does not touch, the vault's apart.
  pub record OutsideRouter (w w' : World c) : Type 0 where
    pub auction : w'.auction ≡ w.auction
    pub queue : w'.queue ≡ w.queue

  module _ (e : Env) (config : Config) (exit_id : ℕ) (w w' : World c) where
    pub router_escrow-Escrowed :
        (seller asset : Address) (amount : ℤ)
        → router_escrow e config exit_id seller asset amount w ≡ ok (tt, w')
        → Escrowed (enter e (Chain.router_address c)) exit_id seller asset amount w w'
    unfolding router_escrow
    router_escrow-Escrowed seller asset amount h =
        escrow-Escrowed _ exit_id seller asset amount w w' (
          call_contract-eq-ok e (Chain.router_address c) config.router
            (λ inner. Router.escrow inner exit_id seller asset amount) w w' h)

    pub router_settle-Settled :
        (node : Address) (token_amount usdc_amount : ℤ)
        → router_settle e config exit_id node token_amount usdc_amount w ≡ ok (tt, w')
        → Settled (enter e (Chain.router_address c)) node token_amount usdc_amount exit_id w w'
    unfolding router_settle
    router_settle-Settled node token_amount usdc_amount h =
        settle-Settled _ node token_amount usdc_amount exit_id w w' (
          call_contract-eq-ok e (Chain.router_address c) config.router
            (λ inner. Router.settle inner exit_id node token_amount usdc_amount) w w' h)

    pub router_refund-Refunded :
        router_refund e config exit_id w ≡ ok (tt, w')
        → Refunded (enter e (Chain.router_address c)) exit_id w w'
    unfolding router_refund
    router_refund-Refunded h = refund-Refunded _ exit_id w w' (
        call_contract-eq-ok e (Chain.router_address c) config.router
          (λ inner. Router.refund inner exit_id) w w' h)

    pub queue_enqueue-Entered :
        (asset : Address) (place : ℕ)
        → queue_enqueue e config asset exit_id w ≡ ok (place, w')
        → Entered (enter e (Chain.queue_address c)) asset exit_id place w w'
    unfolding queue_enqueue
    queue_enqueue-Entered asset place h = enqueue-Entered _ asset exit_id place w w' (
        call_contract-eq-ok e (Chain.queue_address c) config.queue
          (λ inner. Queue.enqueue inner asset exit_id) w w' h)

    pub queue_dequeue-Left :
        (asset : Address)
        → queue_dequeue e config asset exit_id w ≡ ok (tt, w')
        → Left (enter e (Chain.queue_address c)) asset exit_id w w'
    unfolding queue_dequeue
    queue_dequeue-Left asset h = dequeue-Left _ asset exit_id w w' (
        call_contract-eq-ok e (Chain.queue_address c) config.queue
          (λ inner. Queue.dequeue inner asset exit_id) w w' h)

  pub escrow-OutsideRouter :
      (e : Env) (config : Config) (exit_id seller asset : Address) (amount : ℤ) (w w' : World c)
      → router_escrow e config exit_id seller asset amount w ≡ ok (tt, w')
      → OutsideRouter w w'
  escrow-OutsideRouter e config exit_id seller asset amount w w' h =
      rw ((router_escrow-Escrowed e config exit_id w w' seller asset amount h).result)
        (record { auction = refl; queue = refl })

  pub settle-OutsideRouter :
      (e : Env) (config : Config) (exit_id : ℕ) (node : Address) (token_amount usdc_amount : ℤ)
      (w w' : World c)
      → router_settle e config exit_id node token_amount usdc_amount w ≡ ok (tt, w')
      → OutsideRouter w w'
  settle-OutsideRouter e config exit_id node token_amount usdc_amount w w' h =
      let s = router_settle-Settled e config exit_id w w' node token_amount usdc_amount h in
      let p =
        vault_pay_out-PaidOut _ s.config node s.held.asset s.held.seller s.net w s.paid
          s.to_seller in
      elim (pay_fee-cases _ s.config node s.held.asset s.paid s.levied s.fee s.to_treasury) [
        | inl (_, q) ↦ record {
          auction = s.auction_kept ∙ rw (q.result) (rw (p.result) refl);
          queue = s.queue_kept ∙ rw (q.result) (rw (p.result) refl);
        }
        | inr (_, same) ↦ record {
          auction = s.auction_kept ∙ rw same (rw (p.result) refl);
          queue = s.queue_kept ∙ rw same (rw (p.result) refl);
        }
      ]
