-- ===== src/Router/Balances.antt =====
-- Whose balance moves, and by how much, in a settlement (contracts/settlement_router/src/lib.rs,
-- `settle`).
use stellar_exit_contracts.Router.{settle, pay_fee}
use stellar_exit_contracts.Router.Effects.{vault_pay_out-PaidOut}
use stellar_exit_contracts.Router.Fees.{fee_of, split_fee_lem}
use stellar_exit_contracts.Router.Payment.{pay_fee-cases, fee_nonneg}
use stellar_exit_contracts.Router.Settlement.{settle-Settled}
use stellar_exit_contracts.Vault.Effects.Hooks.{PaidOut}
use stellar_exit_contracts.Vault.Solvency.Arithmetic.{eq-pos_part}
use stellar_exit_contracts.State.Router.{Config, Escrow}
use stellar_exit_contracts.State.Vault as VaultState
use stellar_exit_contracts.Host.Chain.{Address, Env, Chain, World, Sep41, enter}
use stellar_exit_contracts.Host.Call.{ok}
use stellar_exit_contracts.Prelude.{
  ℕ, ◌+◌, ◌≡◌, ◌∙◌, ap, subst, inl, inr, some, arith, ◌==◌, ◌&&◌, if◌then◌else◌,
}
use stellar_exit_contracts.Prelude.Int.{
  ℤ, pos, pos_part, parts_exclusive, -ℤ_parts, ◌-ℤ◌, ◌≤ℤ◌, ◌<ℤ◌,
}
use stellar_exit_contracts.Prelude.Dict.{lookup}

-- What a movement of a token is for one holder: the amount, if both are meant.
abbrev pub share : Address → Address → ℤ → Address → Address → ℕ
share token who amount t holder = if (token == t) && (who == holder) then pos_part amount else 0

share_split :
    (token who : Address) (gross fee : ℤ) (t holder : Address)
    → pos 0 ≤ℤ fee
    → pos 0 <ℤ gross -ℤ fee
    → share token who (gross -ℤ fee) t holder + share token who fee t holder
      ≡ share token who gross t holder
share_split token who gross fee t holder nonneg left = ground (
  arith,
  -ℤ_parts gross fee,
  parts_exclusive fee,
  parts_exclusive gross,
  parts_exclusive (gross -ℤ fee),
)

module _ {c : Chain} (law : Sep41 c) where
  transfer_moves :
      (e : Env) (token from to : Address) (amount : ℤ) (l l' : Chain.Ledger c)
      → pos 0 ≤ℤ amount
      → Chain.transfer c e token from to amount l ≡ some l'
      → (t holder : Address)
      → Chain.balance c l' t holder + share token from amount t holder
        ≡ Chain.balance c l t holder + share token to amount t holder
  transfer_moves e token from to amount l l' nonneg moved t holder =
      law.moves e token from to (pos_part amount) l l' (rw (← eq-pos_part amount nonneg) moved) t
        holder

  PaidOut-moves :
      (e : Env) (node asset to : Address) (amount : ℤ) (w w' : World c) (config : VaultState.Config)
      → w.vault.config ≡ some config
      → PaidOut e node asset amount to w w'
      → (t holder : Address)
      → Chain.balance c w'.ledger t holder + share config.usdc e.current amount t holder
        ≡ Chain.balance c w.ledger t holder + share config.usdc to amount t holder
  PaidOut-moves e node asset to amount w w' config configured p t holder =
      let own : p.config ≡ config = ground (arith, configured, p.configured) in
      ap
        (λ (l : Chain.Ledger c).
          Chain.balance c l t holder + share config.usdc e.current amount t holder)
        (ap (λ (u : World c). u.ledger) p.result)
      ∙ subst
          (λ (v : VaultState.Config).
            Chain.balance c p.ledger t holder + share v.usdc e.current amount t holder
            ≡ Chain.balance c w.ledger t holder + share v.usdc to amount t holder)
          own
          (transfer_moves (enter e p.config.usdc) p.config.usdc e.current to amount w.ledger
            p.ledger (omega (arith, p.positive)) p.moved t holder)

  pay_fee_moves :
      (e : Env) (config : Config) (node asset : Address) (fee : ℤ) (w w' : World c)
      (vault : VaultState.Config)
      → w.vault.config ≡ some vault
      → pos 0 ≤ℤ fee
      → pay_fee e config node asset fee w ≡ ok (tt, w')
      → (t holder : Address)
      → Chain.balance c w'.ledger t holder + share vault.usdc (Chain.vault_address c) fee t holder
        ≡ Chain.balance c w.ledger t holder + share vault.usdc config.treasury fee t holder
  pay_fee_moves e config node asset fee w w' vault configured nonneg h t holder =
      elim (pay_fee-cases e config node asset w w' fee h) [
        | inl (_, p) ↦
            PaidOut-moves _ node asset config.treasury fee w w' vault configured p t holder
        | inr (none, same) ↦ rw same (ground (arith, nonneg, none))
      ]

-- A settlement moves exactly three things, in every token and for every holder at once: the bid out of
-- the vault, in USDC, the seller's part and the fee of it in, and the tokens from the router to the
-- node; it creates nothing and loses nothing, and no other balance moves.
pub settle_balances :
    {c : Chain} (law : Sep41 c) (e : Env) (exit_id : ℕ) (node : Address)
    (token_amount usdc_amount : ℤ) (w w' : World c) (config : Config) (vault : VaultState.Config)
    (held : Escrow)
    → w.router.config ≡ some config
    → w.vault.config ≡ some vault
    → lookup exit_id w.router.escrows ≡ some held
    → settle e exit_id node token_amount usdc_amount w ≡ ok (tt, w')
    → (t holder : Address)
    → Chain.balance c w'.ledger t holder
        + share vault.usdc (Chain.vault_address c) usdc_amount t holder
        + share held.asset e.current token_amount t holder
      ≡ Chain.balance c w.ledger t holder
        + share vault.usdc held.seller (usdc_amount -ℤ fee_of config usdc_amount) t holder
        + share vault.usdc config.treasury (fee_of config usdc_amount) t holder
        + share held.asset node token_amount t holder
settle_balances {c} law e exit_id node token_amount usdc_amount w w' config vault held configured
      vault_configured stored h t holder =
    let s = settle-Settled e node token_amount usdc_amount exit_id w w' h in
    let same : s.config ≡ config = ground (arith, configured, s.configured) in
    let found : s.held ≡ held = ground (arith, stored, s.stored) in
    let (fee, net, _) = split_fee_lem s.config usdc_amount w s.fee s.net w s.split in
    let p =
      vault_pay_out-PaidOut e s.config node s.held.asset s.held.seller s.net w s.paid s.to_seller in
    let nonneg : pos 0 ≤ℤ s.fee = rw fee (fee_nonneg s.config usdc_amount s.usdc_positive) in
    let first =
      PaidOut-moves law _ node s.held.asset s.held.seller s.net w s.paid vault vault_configured p t
        holder in
    let second =
      pay_fee_moves law e s.config node s.held.asset s.fee s.paid s.levied vault
        (ap (λ (u : World c). u.vault.config) p.result ∙ vault_configured) nonneg s.to_treasury t
        holder in
    let third =
      transfer_moves law (enter e s.held.asset) s.held.asset e.current node token_amount
        s.levied.ledger s.ledger (omega (arith, s.tokens_positive)) s.moved t holder in
    let whole : share vault.usdc (Chain.vault_address c) s.net t holder
          + share vault.usdc (Chain.vault_address c) s.fee t holder
        ≡ share vault.usdc (Chain.vault_address c) usdc_amount t holder =
      rw net (
        share_split vault.usdc (Chain.vault_address c) usdc_amount s.fee t holder nonneg
          (subst (λ (a : ℤ). pos 0 <ℤ a) net p.positive)) in
    rw (s.result_ledger, ← same, ← found, ← fee, ← net) (omega (arith, first, second, third, whole))
