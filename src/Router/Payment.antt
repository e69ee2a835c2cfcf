-- ===== src/Router/Payment.antt =====
-- What a settlement takes from the node that pays for it (contracts/settlement_router/src/lib.rs,
-- `settle`, with the vault's `pay_out`).
use stellar_exit_contracts.Router.{settle, pay_fee}
use stellar_exit_contracts.Router.Fees.{fee_of, split_fee_lem}
use stellar_exit_contracts.Router.Effects.{vault_pay_out-PaidOut}
use stellar_exit_contracts.Router.Settlement.{settle-Settled}
use stellar_exit_contracts.Vault.Effects.Hooks.{PaidOut}
use stellar_exit_contracts.State.Vault.{Node}
use stellar_exit_contracts.State.Router.{Config}
use stellar_exit_contracts.Host.Chain.{Address, Env, Chain, World, enter}
use stellar_exit_contracts.Host.Call.{ok}
use stellar_exit_contracts.Prelude.{
  ℕ, ◌≡◌, ◌≢◌, ap, ◌∙◌, ◌⊎◌, inl, inr, some, arith, Bool-cases, ==_refl,
}
use stellar_exit_contracts.Prelude.Int.{
  ℤ, pos, negsuc, ◌+ℤ◌, ◌-ℤ◌, ◌*ℤ◌, quot, ◌≤ℤ◌, ◌<ℤ◌, ltb_ℤ, int_laws,
}
use stellar_exit_contracts.Prelude.Dict.{lookup, lookup-insert}

pub fee_nonneg : (config : Config) (gross : ℤ) → pos 0 <ℤ gross → pos 0 ≤ℤ fee_of config gross
unfolding fee_of ◌*ℤ◌ quot
fee_nonneg config (pos g) p = omega arith
fee_nonneg config (negsuc g) p = absurd (omega arith)

-- A node's account after `amount` of its committed capital has been paid out.
unfoldable pub charged : Node → ℤ → Node
charged n amount = record n {
  committed = n.committed -ℤ amount;
  deposited = n.deposited -ℤ amount;
  filled = n.filled +ℤ amount;
}

module _ {c : Chain} (e : Env) (node asset to : Address) (amount : ℤ) (w w' : World c) where
  PaidOut-charged :
      PaidOut e node asset amount to w w'
      → (n : Node) → lookup node w.vault.nodes ≡ some n
      → lookup node w'.vault.nodes ≡ some (charged n amount)
  unfolding charged
  PaidOut-charged p n known =
      rw (p.result, lookup-insert node node) (ground (arith, known, p.known, ==_refl node))

  -- The accounts of all other nodes stay as they are.
  PaidOut-other :
      PaidOut e node asset amount to w w'
      → (b : Address) → b ≢ node
      → lookup b w'.vault.nodes ≡ lookup b w.vault.nodes
  PaidOut-other p b other = rw (p.result, lookup-insert b node) (ground arith)

-- Charging two parts of a gross amount is charging the amount.
charged_twice :
    (n : Node) (gross fee : ℤ) → charged (charged n (gross -ℤ fee)) fee ≡ charged n gross
unfolding charged
charged_twice n gross fee = λ i. record {
  deposited = minus n.deposited i;
  committed = minus n.committed i;
  filled = plus n.filled i;
  joined_at = n.joined_at;
}
  where
    minus : (a : ℤ) → a -ℤ (gross -ℤ fee) -ℤ fee ≡ a -ℤ gross
    minus a = omega int_laws

    plus : (a : ℤ) → a +ℤ (gross -ℤ fee) +ℤ fee ≡ a +ℤ gross
    plus a = omega int_laws

charged_nothing : (n : Node) (fee : ℤ) → pos 0 ≤ℤ fee → fee ≤ℤ pos 0 → n ≡ charged n fee
unfolding charged
charged_nothing n fee nonneg free = λ i. record {
  deposited = minus n.deposited i;
  committed = minus n.committed i;
  filled = plus n.filled i;
  joined_at = n.joined_at;
}
  where
    minus : (a : ℤ) → a ≡ a -ℤ fee
    minus a = omega int_laws

    plus : (a : ℤ) → a ≡ a +ℤ fee
    plus a = omega int_laws

module _ {c : Chain} (e : Env) (config : Config) (node asset : Address) (w w' : World c) where
  -- What the second payment does, which the code skips where the fee is nothing.
  pub pay_fee-cases :
      (fee : ℤ)
      → pay_fee e config node asset fee w ≡ ok (tt, w')
      → ((pos 0 <ℤ fee)
          × PaidOut (enter e (Chain.vault_address c)) node asset fee config.treasury w w')
        ⊎ ((fee ≤ℤ pos 0) × (w' ≡ w))
  unfolding pay_fee
  pay_fee-cases fee h = elim (Bool-cases (ltb_ℤ (pos 0) fee)) [
    | inl levied ↦ inl (
      ground arith,
      vault_pay_out-PaidOut e config node asset config.treasury fee w w' (rw levied at h),
    )
    | inr free ↦ inr (ground arith, ground arith)
  ]

  pay_fee-charged :
      (fee : ℤ) (n : Node)
      → pos 0 ≤ℤ fee
      → pay_fee e config node asset fee w ≡ ok (tt, w')
      → lookup node w.vault.nodes ≡ some n
      → lookup node w'.vault.nodes ≡ some (charged n fee)
  pay_fee-charged fee n nonneg h known = elim (pay_fee-cases fee h) [
    | inl (_, p) ↦ PaidOut-charged _ node asset config.treasury fee w w' p n known
    | inr (free, same) ↦ rw same (known ∙ ap some (charged_nothing n fee nonneg free))
  ]

  pay_fee-other :
      (fee : ℤ)
      → pay_fee e config node asset fee w ≡ ok (tt, w')
      → (b : Address) → b ≢ node
      → lookup b w'.vault.nodes ≡ lookup b w.vault.nodes
  pay_fee-other fee h b other = elim (pay_fee-cases fee h) [
    | inl (_, p) ↦ PaidOut-other _ node asset config.treasury fee w w' p b other
    | inr (_, same) ↦ rw same
  ]

-- A settlement takes from the node's account exactly the gross amount that the node bid, the
-- seller's part and the fee together, off its committed and its deposited capital, and adds it to
-- what it has filled; every other account stays as it is.
pub settle_charges :
    {c : Chain} (e : Env) (exit_id : ℕ) (node : Address) (token_amount usdc_amount : ℤ)
    (w w' : World c) (n : Node)
    → settle e exit_id node token_amount usdc_amount w ≡ ok (tt, w')
    → lookup node w.vault.nodes ≡ some n
    → (lookup node w'.vault.nodes ≡ some (charged n usdc_amount))
      × ((b : Address) → b ≢ node → lookup b w'.vault.nodes ≡ lookup b w.vault.nodes)
settle_charges e exit_id node token_amount usdc_amount w w' n h known =
    let s = settle-Settled e node token_amount usdc_amount exit_id w w' h in
    let parts = split_fee_lem s.config usdc_amount w s.fee s.net w s.split in
    let to_seller =
      vault_pay_out-PaidOut e s.config node s.held.asset s.held.seller s.net w s.paid s.to_seller in
    let once = PaidOut-charged _ node s.held.asset s.held.seller s.net w s.paid to_seller n known in
    let nonneg : pos 0 ≤ℤ s.fee = rw (parts.0) (fee_nonneg s.config usdc_amount s.usdc_positive) in
    (
      rw (s.vault) (
          pay_fee-charged e s.config node s.held.asset s.paid s.levied s.fee (charged n s.net)
            nonneg s.to_treasury once
          ∙ ap some (
              ap (λ net. charged (charged n net) s.fee) parts.1
              ∙ charged_twice n usdc_amount s.fee)),
      λ b other. rw (s.vault) (
          pay_fee-other e s.config node s.held.asset s.paid s.levied s.fee s.to_treasury b other
          ∙ PaidOut-other _ node s.held.asset s.held.seller s.net w s.paid to_seller b other),
    )
