-- ===== src/Router/Once.antt =====
-- What comes after an escrow record is gone (contracts/settlement_router/src/lib.rs, `settle` and
-- `refund`).
use stellar_exit_contracts.Router.{settle, refund}
use stellar_exit_contracts.Router.Gone.{IsGone, spares_exit, perform-IsGone}
use stellar_exit_contracts.Router.Operations.{Operation, perform}
use stellar_exit_contracts.Router.Effects.{Wired, refund-Refunded}
use stellar_exit_contracts.Router.Settlement.{left_over, settle-Settled}
use stellar_exit_contracts.Vault.Effects.{IsAuthorized}
use stellar_exit_contracts.State.Router.{Escrow}
use stellar_exit_contracts.State.Router as RouterState
use stellar_exit_contracts.State.Errors.{Error, RouterError}
use stellar_exit_contracts.Host.Chain.{Address, Env, Chain, World}
use stellar_exit_contracts.Host.Call.{ok, err}
use stellar_exit_contracts.Prelude.{
  ℕ, ◌≡◌, ◌≢◌, true, ap, ◌∙◌, ◌⊎◌, inl, inr, some, none, arith, ==_refl,
}
use stellar_exit_contracts.Prelude.Int.{ℤ, pos, ◌-ℤ◌, ◌<ℤ◌, -ℤ_parts}
use stellar_exit_contracts.Prelude.Dict.{lookup, lookup-remove}

module _ {c : Chain} (exit_id : ℕ) where
  pub removed :
      (held : Escrow) (taken : ℤ) (w : World c)
      → taken ≡ held.amount
      → lookup exit_id (left_over exit_id held (held.amount -ℤ taken) w).router.escrows ≡ none
  unfolding left_over
  removed held taken w all = ground (
    arith,
    -ℤ_parts held.amount taken,
    lookup-remove exit_id exit_id w.router.escrows,
    ==_refl exit_id,
  )

  -- With no record, both ways out of escrow refuse.
  nothing_escrowed :
      (e : Env) (node : Address) (token_amount usdc_amount : ℤ) (w : World c) (v : Wired w)
      → lookup exit_id w.router.escrows ≡ none
      → IsAuthorized e v.auction
      → pos 0 <ℤ token_amount
      → pos 0 <ℤ usdc_amount
      → (settle e exit_id node token_amount usdc_amount w
          ≡ err (Error.router RouterError.nothing_escrowed))
        × (refund e exit_id w ≡ err (Error.router RouterError.nothing_escrowed))
  unfolding settle refund
  nothing_escrowed e node token usdc w v gone auth p q =
      (ground (arith, v.configured, v.wired), ground (arith, v.configured, v.wired))

  -- The record of the exit goes when all of it is settled, or when it is refunded.
  settle_or_refund-IsGone :
      (e : Env) (node : Address) (token_amount usdc_amount : ℤ) (w w' : World c) (held : Escrow)
      → lookup exit_id w.router.escrows ≡ some held
      → ((settle e exit_id node token_amount usdc_amount w ≡ ok (tt, w'))
          × (token_amount ≡ held.amount))
        ⊎ (refund e exit_id w ≡ ok (tt, w'))
      → IsGone exit_id w'
  settle_or_refund-IsGone e node token usdc w w' held stored (inl (h, all)) =
      let f = settle-Settled e node token usdc exit_id w w' h in
      ap (λ (r : RouterState.Storage). lookup exit_id r.escrows) f.router
      ∙ removed f.held token _ (ground (arith, all, stored, f.stored))
  settle_or_refund-IsGone e node token usdc w w' held stored (inr h) =
      rw ((refund-Refunded e exit_id w w' h).result)
        (ground (arith, lookup-remove exit_id exit_id w.router.escrows, ==_refl exit_id))

  -- What may come after: calls of the router, whoever makes them, but for a new escrow for the exit,
  -- and anything that leaves the router's storage alone.
  pub data Later (start : World c) : World c → Type 0 where
    here : Later start start
    call :
        {w w' : World c} (op : Operation) (e : Env)
        → Later start w
        → spares_exit exit_id op ≡ true
        → perform op e w ≡ ok (tt, w')
        → Later start w'
    elsewhere : {w w' : World c} → Later start w → w'.router ≡ w.router → Later start w'

  Later-IsGone : {start w : World c} → IsGone exit_id start → Later start w → IsGone exit_id w
  Later-IsGone gone here = gone
  Later-IsGone gone (call {w} {w'} op e r spared h) =
      perform-IsGone exit_id op e w w' (Later-IsGone gone r) spared h
  Later-IsGone gone (elsewhere {w} {w'} r same) = rw same (Later-IsGone gone r)

  -- After a settlement of all that an escrow record holds, or a refund, and then any calls of the
  -- router but a new escrow for the same exit, with anything between them that leaves the router's
  -- storage alone, the wired auction that asks for positive amounts is refused with
  -- `NothingEscrowed` by `settle`, and by `refund` too, and neither call succeeds, whoever makes
  -- it and whatever it asks for.
  pub settle_or_refund_once :
      (e later : Env) (node other : Address) (token_amount usdc_amount more_tokens more_usdc : ℤ)
      (w w' v : World c) (held : Escrow) (wired : Wired v)
      → lookup exit_id w.router.escrows ≡ some held
      → ((settle e exit_id node token_amount usdc_amount w ≡ ok (tt, w'))
          × (token_amount ≡ held.amount))
        ⊎ (refund e exit_id w ≡ ok (tt, w'))
      → Later w' v
      → IsAuthorized later wired.auction
      → pos 0 <ℤ more_tokens
      → pos 0 <ℤ more_usdc
      → (settle later exit_id other more_tokens more_usdc v
          ≡ err (Error.router RouterError.nothing_escrowed))
        × (refund later exit_id v ≡ err (Error.router RouterError.nothing_escrowed))
        × ((caller : Env) (payer : Address) (tokens usdc : ℤ) (u : World c)
            → settle caller exit_id payer tokens usdc v ≢ ok (tt, u))
        × ((caller : Env) (u : World c) → refund caller exit_id v ≢ ok (tt, u))
  settle_or_refund_once e later node other token usdc more_tokens more_usdc w w' v held wired stored
        done r auth p q =
      let gone = Later-IsGone (settle_or_refund-IsGone e node token usdc w w' held stored done) r in
      let (no_settle, no_refund) =
        nothing_escrowed later other more_tokens more_usdc v wired gone auth p q in
      (
        no_settle,
        no_refund,
        λ caller payer tokens amount u h.
            ground (arith, gone, (settle-Settled caller payer tokens amount exit_id v u h).stored),
        λ caller u h. ground (arith, gone, (refund-Refunded caller exit_id v u h).stored),
      )
