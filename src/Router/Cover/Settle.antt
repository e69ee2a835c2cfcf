-- ===== src/Router/Cover/Settle.antt =====
-- A settlement keeps the escrow covered: the vault pays with its own USDC, and the record falls by
-- the tokens that leave.
use stellar_exit_contracts.Router.Cover.{
  in_escrow, IsPositive, IsCovered, insert-IsPositive, remove-IsPositive, in_escrow-insert,
  in_escrow-remove,
}
use stellar_exit_contracts.Router.Cover.Steps.{outgoing, spared}
use stellar_exit_contracts.Router.{settle, pay_fee}
use stellar_exit_contracts.Router.Effects.{vault_pay_out-PaidOut}
use stellar_exit_contracts.Router.Payment.{pay_fee-cases}
use stellar_exit_contracts.Router.Settlement.{left_over, settle-Settled}
use stellar_exit_contracts.Vault.Effects.Hooks.{PaidOut}
use stellar_exit_contracts.State.Router.{Escrow, Config}
use stellar_exit_contracts.State.Router as RouterState
use stellar_exit_contracts.Host.Chain.{Address, Env, Chain, World, Sep41, enter}
use stellar_exit_contracts.Host.Call.{ok}
use stellar_exit_contracts.Prelude.{
  ℕ, ◌+◌, ◌≤◌, ◌≡◌, ◌≢◌, ap, ◌∙◌, some, arith, ◌==◌, if◌then◌else◌, inl, inr, Bool-cases, subst,
  sym, ◌&&◌,
}
use stellar_exit_contracts.Prelude.Int.{
  ℤ, pos, pos_part, ◌-ℤ◌, -ℤ_parts, ◌≤ℤ◌, ◌<ℤ◌, parts_exclusive, leb_ℤ,
}
use stellar_exit_contracts.Prelude.Dict.{lookup}

-- A step that the router's escrow does not notice.
record Spares {c : Chain} (self : Address) (w w' : World c) : Type 0 where
  router : w'.router ≡ w.router
  balances : (t : Address) → Chain.balance c w.ledger t self ≤ Chain.balance c w'.ledger t self

module _ {c : Chain} (law : Sep41 c) (e : Env) (self node asset : Address) (w w' : World c) where
  PaidOut-Spares :
      (to : Address) (amount : ℤ)
      → self ≢ e.current
      → PaidOut e node asset amount to w w'
      → Spares self w w'
  PaidOut-Spares to amount other p = record {
    router = ap (λ (v : World c). v.router) p.result;
    balances = λ t. rw (p.result) (
        spared law (enter e p.config.usdc) p.config.usdc e.current to amount w.ledger p.ledger
          p.positive p.moved t self other);
  }

pay_fee-Spares :
    {c : Chain} (law : Sep41 c) (e : Env) (config : Config) (node asset : Address) (fee : ℤ)
    (self : Address) (w w' : World c)
    → self ≢ Chain.vault_address c
    → pay_fee e config node asset fee w ≡ ok (tt, w')
    → Spares self w w'
pay_fee-Spares law e config node asset fee self w w' other h =
    elim (pay_fee-cases e config node asset w w' fee h) [
      | inl (_, p) ↦ PaidOut-Spares law _ self node asset w w' config.treasury fee other p
      | inr (_, same) ↦ record { router = rw same; balances = λ t. rw same (omega arith) }
    ]

module _ (exit_id : ℕ) (held : Escrow) (taken : ℤ) {c : Chain} (w : World c)
    (stored : lookup exit_id w.router.escrows ≡ some held) (positive : pos 0 <ℤ taken)
    (enough : taken ≤ℤ held.amount) where
  abbrev remaining : ℤ
  remaining = held.amount -ℤ taken

  -- What is left is removed if it is nothing, and written otherwise.
  left_over-IsPositive :
      ((j : ℕ) → IsPositive (lookup j w.router.escrows))
      → (j : ℕ) → IsPositive (lookup j (left_over exit_id held remaining w).router.escrows)
  unfolding left_over
  left_over-IsPositive all j =
      elim (Bool-cases (leb_ℤ remaining (pos 0) && leb_ℤ (pos 0) remaining)) [
        | inl nothing ↦ rw nothing (remove-IsPositive exit_id w.router.escrows all j)
        | inr something ↦ rw something (
            insert-IsPositive exit_id w.router.escrows all (record held { amount = remaining })
              (ground (arith, -ℤ_parts held.amount taken)) j)
      ]

  left_over-in_escrow :
      (t : Address)
      → in_escrow t (left_over exit_id held remaining w).router.escrows
          + (if held.asset == t then pos_part taken else 0)
        ≤ in_escrow t w.router.escrows
  unfolding left_over
  left_over-in_escrow t = elim (Bool-cases (leb_ℤ remaining (pos 0) && leb_ℤ (pos 0) remaining)) [
    | inl nothing ↦ rw nothing (
        ground (
          arith,
          in_escrow-remove t exit_id w.router.escrows held stored,
          -ℤ_parts held.amount taken,
          parts_exclusive taken,
        ))
    | inr something ↦ rw something (
        ground (
          arith,
          in_escrow-insert t exit_id w.router.escrows (record held { amount = remaining }) held
              stored,
          -ℤ_parts held.amount taken,
          parts_exclusive taken,
          parts_exclusive remaining,
        ))
  ]

pub settle-IsCovered :
    {c : Chain} (law : Sep41 c) (e : Env) (exit_id : ℕ) (node : Address)
    (token_amount usdc_amount : ℤ) (w w' : World c)
    → IsCovered e.current w
    → e.current ≢ Chain.vault_address c
    → settle e exit_id node token_amount usdc_amount w ≡ ok (tt, w')
    → IsCovered e.current w'
settle-IsCovered {c} law e exit_id node token_amount usdc_amount w w' s apart h =
    let f = settle-Settled e node token_amount usdc_amount exit_id w w' h in
    let paid =
      PaidOut-Spares law (enter e _) e.current node f.held.asset w f.paid f.held.seller f.net apart
        (vault_pay_out-PaidOut e f.config node f.held.asset f.held.seller f.net w f.paid
          f.to_seller) in
    let levied =
      pay_fee-Spares law e f.config node f.held.asset f.fee e.current f.paid f.levied apart
        f.to_treasury in
    let same = levied.router ∙ paid.router in
    let v = record (f.levied) { ledger = f.ledger } in
    let stored = ap (λ (r : RouterState.Storage). lookup exit_id r.escrows) same ∙ f.stored in
    record {
      positive = rw (f.router) (
          left_over-IsPositive exit_id f.held token_amount v stored f.tokens_positive f.enough (
            subst (λ (r : RouterState.Storage). (j : ℕ) → IsPositive (lookup j r.escrows))
              (sym same) s.positive));
      covered = λ t. omega (
        arith,
        ap (λ (r : RouterState.Storage). in_escrow t r.escrows) f.router,
        ap (λ (l : Chain.Ledger c). Chain.balance c l t e.current) f.result_ledger,
        s.covered t,
        paid.balances t,
        levied.balances t,
        ap (λ (r : RouterState.Storage). in_escrow t r.escrows) same,
        left_over-in_escrow exit_id f.held token_amount v stored f.tokens_positive f.enough t,
        outgoing law (enter e f.held.asset) f.held.asset e.current node token_amount f.levied.ledger
            f.ledger f.tokens_positive f.moved t,
      );
    }

left_over_config :
    {c : Chain} (exit_id : ℕ) (held : Escrow) (rest : ℤ) (w : World c)
    → (left_over exit_id held rest w).router.config ≡ w.router.config
unfolding left_over
left_over_config exit_id held rest w = ground arith

-- A settlement leaves the router's configuration alone.
pub settle_config :
    {c : Chain} (law : Sep41 c) (e : Env) (exit_id : ℕ) (node : Address)
    (token_amount usdc_amount : ℤ) (w w' : World c)
    → e.current ≢ Chain.vault_address c
    → settle e exit_id node token_amount usdc_amount w ≡ ok (tt, w')
    → w'.router.config ≡ w.router.config
settle_config law e exit_id node token_amount usdc_amount w w' apart h =
    let f = settle-Settled e node token_amount usdc_amount exit_id w w' h in
    let paid =
      PaidOut-Spares law (enter e _) e.current node f.held.asset w f.paid f.held.seller f.net apart
        (vault_pay_out-PaidOut e f.config node f.held.asset f.held.seller f.net w f.paid
          f.to_seller) in
    let levied =
      pay_fee-Spares law e f.config node f.held.asset f.fee e.current f.paid f.levied apart
        f.to_treasury in
    let config = λ (r : RouterState.Storage). r.config in
    ap config f.router
    ∙ left_over_config exit_id f.held (f.held.amount -ℤ token_amount) _
    ∙ ap config (levied.router ∙ paid.router)
