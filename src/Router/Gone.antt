-- ===== src/Router/Gone.antt =====
-- The calls of contracts/settlement_router/src/lib.rs on an exit that has no escrow record.
use stellar_exit_contracts.Router
use stellar_exit_contracts.Router.Operations.{Operation, perform}
use stellar_exit_contracts.Router.{settle, refund, escrow}
use stellar_exit_contracts.Router.Effects.{escrow-Escrowed, refund-Refunded, vault_pay_out-PaidOut}
use stellar_exit_contracts.Router.Payment.{pay_fee-cases}
use stellar_exit_contracts.Router.Settlement.{left_over, Settled, settle-Settled}
use stellar_exit_contracts.State.Router.{Escrow}
use stellar_exit_contracts.State.Router as RouterState
use stellar_exit_contracts.Host.Chain.{Address, Env, Chain, World}
use stellar_exit_contracts.Host.Call.{ok}
use stellar_exit_contracts.Prelude.{
  ℕ, ◌≡◌, ◌≢◌, ap, ◌∙◌, inl, inr, Bool, true, false, not, none, arith, ◌==◌,
}
use stellar_exit_contracts.Prelude.Int.{ℤ, ◌-ℤ◌}
use stellar_exit_contracts.Prelude.Dict.{lookup, lookup-insert, lookup-remove}

-- The legs of a settlement leave the router's storage to the end.
legs-router :
    {c : Chain} (e : Env) (k : ℕ) (node : Address) (token_amount usdc_amount : ℤ) (w w' : World c)
    (f : Settled e node token_amount usdc_amount k w w')
    → f.levied.router ≡ w.router
legs-router {c} e k node token_amount usdc_amount w w' f =
    let p =
      vault_pay_out-PaidOut e f.config node f.held.asset f.held.seller f.net w f.paid f.to_seller in
    elim (pay_fee-cases e f.config node f.held.asset f.paid f.levied f.fee f.to_treasury) [
      | inl (_, q) ↦
          ap (λ (u : World c). u.router) q.result ∙ ap (λ (u : World c). u.router) p.result
      | inr (_, same) ↦
          ap (λ (u : World c). u.router) same ∙ ap (λ (u : World c). u.router) p.result
    ]

-- Anything but a new escrow for the exit.
abbrev pub spares_exit : ℕ → Operation → Bool
spares_exit exit_id (Operation.escrow k seller asset amount) = not (k == exit_id)
spares_exit exit_id _ = true

module _ {c : Chain} (exit_id : ℕ) where
  left_over_other :
      (k : ℕ) (held : Escrow) (remaining : ℤ) (w : World c)
      → exit_id ≢ k
      → lookup exit_id w.router.escrows ≡ none
      → lookup exit_id (left_over k held remaining w).router.escrows ≡ none
  unfolding left_over
  left_over_other k held remaining w other gone = ground (
    arith,
    lookup-remove exit_id k w.router.escrows,
    lookup-insert exit_id k (record held { amount = remaining }) w.router.escrows,
  )

  -- The exit has no record.
  abbrev pub IsGone : World c → Type 0
  IsGone w = lookup exit_id w.router.escrows ≡ none

  module _ (e : Env) (w w' : World c) (gone : IsGone w) where
    initialize-IsGone :
        (admin vault usdc treasury : Address) (bps : ℕ)
        → Router.initialize e admin vault usdc treasury bps w ≡ ok (tt, w')
        → IsGone w'
    unfolding Router.initialize
    initialize-IsGone admin vault usdc treasury bps h = ground arith

    set_auction-IsGone : (a : Address) → Router.set_auction e a w ≡ ok (tt, w') → IsGone w'
    unfolding Router.set_auction
    set_auction-IsGone a h = ground arith

    set_admin-IsGone : (a : Address) → Router.set_admin e a w ≡ ok (tt, w') → IsGone w'
    unfolding Router.set_admin
    set_admin-IsGone a h = ground arith

    set_treasury-IsGone : (a : Address) → Router.set_treasury e a w ≡ ok (tt, w') → IsGone w'
    unfolding Router.set_treasury
    set_treasury-IsGone a h = ground arith

    set_protocol_fee_bps-IsGone :
        (bps : ℕ) → Router.set_protocol_fee_bps e bps w ≡ ok (tt, w') → IsGone w'
    unfolding Router.set_protocol_fee_bps
    set_protocol_fee_bps-IsGone bps h = ground arith

    escrow-IsGone :
        (k : ℕ) (seller asset : Address) (amount : ℤ)
        → (k == exit_id) ≡ false
        → escrow e k seller asset amount w ≡ ok (tt, w')
        → IsGone w'
    escrow-IsGone k seller asset amount other h =
        rw ((escrow-Escrowed e k seller asset amount w w' h).result) (
          ground (
            arith,
            gone,
            other,
            lookup-insert exit_id k (record { seller = seller; asset = asset; amount = amount })
                w.router.escrows,
          ))

    settle-IsGone :
        (k : ℕ) (node : Address) (token_amount usdc_amount : ℤ)
        → settle e k node token_amount usdc_amount w ≡ ok (tt, w')
        → IsGone w'
    settle-IsGone k node token usdc h =
        let f = settle-Settled e node token usdc k w w' h in
        let same = legs-router e k node token usdc w w' f in
        ap (λ (r : RouterState.Storage). lookup exit_id r.escrows) f.router
        ∙ left_over_other k f.held (f.held.amount -ℤ token)
            (record (f.levied) { ledger = f.ledger }) (λ own. ground (arith, f.stored, gone, own))
            (ap (λ (r : RouterState.Storage). lookup exit_id r.escrows) same ∙ gone)

    refund-IsGone : (k : ℕ) → refund e k w ≡ ok (tt, w') → IsGone w'
    refund-IsGone k h =
        rw ((refund-Refunded e k w w' h).result)
          (ground (arith, gone, lookup-remove exit_id k w.router.escrows))

  -- Of all calls of the router only a new escrow brings the record back.
  pub perform-IsGone :
      (op : Operation) (e : Env) (w w' : World c)
      → IsGone w
      → spares_exit exit_id op ≡ true
      → perform op e w ≡ ok (tt, w')
      → IsGone w'
  unfolding perform
  perform-IsGone (Operation.initialize admin vault usdc treasury bps) e w w' gone spared h =
      initialize-IsGone e w w' gone admin vault usdc treasury bps h
  perform-IsGone (Operation.set_auction a) e w w' gone spared h = set_auction-IsGone e w w' gone a h
  perform-IsGone (Operation.set_admin a) e w w' gone spared h = set_admin-IsGone e w w' gone a h
  perform-IsGone (Operation.set_treasury a) e w w' gone spared h =
      set_treasury-IsGone e w w' gone a h
  perform-IsGone (Operation.set_protocol_fee_bps bps) e w w' gone spared h =
      set_protocol_fee_bps-IsGone e w w' gone bps h
  perform-IsGone (Operation.escrow k seller asset amount) e w w' gone spared h =
      escrow-IsGone e w w' gone k seller asset amount (ground (arith, spared)) h
  perform-IsGone (Operation.settle k node token usdc) e w w' gone spared h =
      settle-IsGone e w w' gone k node token usdc h
  perform-IsGone (Operation.refund k) e w w' gone spared h = refund-IsGone e w w' gone k h
