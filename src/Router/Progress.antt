-- ===== src/Router/Progress.antt =====
-- A settlement that is sure to succeed (contracts/settlement_router/src/lib.rs, `settle`, with the
-- vault's `pay_out`), and when.
use stellar_exit_contracts.Router.{vault_pay_out, pay_fee, put_remaining}
use stellar_exit_contracts.Router.Settlement.{left_over}
use stellar_exit_contracts.Router.Payment.{charged}
use stellar_exit_contracts.Vault.Hooks.{pay_out}
use stellar_exit_contracts.Vault.Effects.{IsAuthorized, Backing}
use stellar_exit_contracts.State.Vault.{Node}
use stellar_exit_contracts.State.Router.{Config, Escrow}
use stellar_exit_contracts.State.Events.{Event, VaultEvent}
use stellar_exit_contracts.Host.Chain.{Address, Env, Chain, World, enter}
use stellar_exit_contracts.Host.Call.{ok, call_contract-reached}
use stellar_exit_contracts.Prelude.{
  ℕ, ◌≡◌, refl, sym, ◌∙◌, inl, inr, true, some, ◌∷◌, arith, Bool-cases, ◌&&◌,
}
use stellar_exit_contracts.Prelude.Int.{
  fits_zero, ℤ, pos, ◌+ℤ◌, ◌-ℤ◌, ◌≤ℤ◌, ◌<ℤ◌, leb_ℤ, ltb_ℤ, fits, fits_between, +ℤ_parts, -ℤ_parts,
  int_laws,
}
use stellar_exit_contracts.Prelude.Dict.{insert}

-- An account that can pay so much, in the range of `i128`.
pub record CanPay (n : Node) (amount : ℤ) : Type 0 where
  pub covered : amount ≤ℤ n.committed
  pub held : amount ≤ℤ n.deposited
  pub filled_nonneg : pos 0 ≤ℤ n.filled
  pub committed_fits : fits n.committed ≡ true
  pub deposited_fits : fits n.deposited ≡ true
  pub filled_fits : fits (n.filled +ℤ amount) ≡ true

-- One that can pay the whole can pay a part, and then the rest.
pub part-CanPay :
    (n : Node) (amount part : ℤ) → CanPay n amount → pos 0 ≤ℤ part → part ≤ℤ amount → CanPay n part
part-CanPay n amount part p nonneg le = record {
  covered = omega (arith, p.covered, le);
  held = omega (arith, p.held, le);
  filled_nonneg = p.filled_nonneg;
  committed_fits = p.committed_fits;
  deposited_fits = p.deposited_fits;
  filled_fits =
      fits_between (pos 0) (n.filled +ℤ amount) (n.filled +ℤ part) fits_zero p.filled_fits
        (omega (int_laws, +ℤ_parts n.filled part, p.filled_nonneg))
        (omega (int_laws, +ℤ_parts n.filled part, +ℤ_parts n.filled amount, le));
}

charged_sum : (f amount part : ℤ) → f +ℤ part +ℤ (amount -ℤ part) ≡ f +ℤ amount
charged_sum f amount part = omega int_laws

pub rest-CanPay :
    (n : Node) (amount part : ℤ)
    → CanPay n amount
    → pos 0 ≤ℤ part
    → part ≤ℤ amount
    → CanPay (charged n part) (amount -ℤ part)
unfolding charged
rest-CanPay n amount part p nonneg le = record {
  covered = omega (int_laws, p.covered);
  held = omega (int_laws, p.held);
  filled_nonneg = omega (int_laws, p.filled_nonneg, nonneg);
  committed_fits =
      fits_between (pos 0) n.committed (n.committed -ℤ part) fits_zero p.committed_fits
        (omega (int_laws, p.covered, le)) (omega (int_laws, nonneg));
  deposited_fits =
      fits_between (pos 0) n.deposited (n.deposited -ℤ part) fits_zero p.deposited_fits
        (omega (int_laws, p.held, le)) (omega (int_laws, nonneg));
  filled_fits = rw (charged_sum n.filled amount part) p.filled_fits;
}

module _ {c : Chain} where
  -- The vault after it has paid, which leaves the ledger `l`.
  unfoldable pub paid :
      (node asset to : Address) (amount : ℤ) (w : World c)
      → Backing node asset w
      → Chain.Ledger c
      → World c
  unfolding charged
  paid node asset to amount w b l = record w {
    vault = record (w.vault) { nodes = insert node (charged b.state amount) w.vault.nodes };
    ledger = l;
    events = Event.vault (VaultEvent.paid_out node asset to amount) ∷ w.events;
  }

  pub pay_out_succeeds :
      (e : Env) (node asset to router : Address) (amount : ℤ) (w : World c)
      (b : Backing node asset w) (l : Chain.Ledger c)
      → b.config.router ≡ some router
      → IsAuthorized e router
      → pos 0 <ℤ amount
      → CanPay b.state amount
      → Chain.transfer c (enter e b.config.usdc) b.config.usdc e.current to amount w.ledger ≡ some l
      → pay_out e node asset to amount w ≡ ok (tt, paid node asset to amount w b l)
  unfolding pay_out paid charged
  pay_out_succeeds e node asset to router amount w b l wired authorized positive p moved = ground (
    arith,
    b.configured,
    b.known,
    b.declared,
    p.covered,
    p.held,
    p.filled_fits,
    fits_between (pos 0) b.state.committed (b.state.committed -ℤ amount) fits_zero p.committed_fits,
    fits_between (pos 0) b.state.deposited (b.state.deposited -ℤ amount) fits_zero p.deposited_fits,
    -ℤ_parts b.state.committed amount,
    -ℤ_parts b.state.deposited amount,
    moved,
  )

  -- What is left over is written or removed.
  pub put_remaining_succeeds :
      (exit_id : ℕ) (held : Escrow) (remaining : ℤ) (w : World c)
      → put_remaining exit_id held remaining w ≡ ok (tt, left_over exit_id held remaining w)
  unfolding put_remaining left_over
  put_remaining_succeeds exit_id held remaining w =
      elim (Bool-cases (leb_ℤ remaining (pos 0) && leb_ℤ (pos 0) remaining)) [
        | inl nothing ↦ rw nothing refl
        | inr rest ↦ rw rest refl
      ]

module _ (c : Chain) (e : Env) (usdc to : Address) (fee : ℤ) where
  -- The second payment, which is made where there is a fee: the ledger goes from `l` to `l'`.
  pub record Levies (l l' : Chain.Ledger c) : Type 0 where
    pub moves : pos 0 <ℤ fee → Chain.transfer c (enter e usdc) usdc e.current to fee l ≡ some l'
    pub rests : fee ≤ℤ pos 0 → l' ≡ l

module _ {c : Chain} (e : Env) (config : Config) (here : config.vault ≡ Chain.vault_address c)
    (node asset : Address) where
  pub vault_pay_out_succeeds :
      (to router : Address) (amount : ℤ) (w : World c) (b : Backing node asset w)
      (l : Chain.Ledger c)
      → b.config.router ≡ some router
      → IsAuthorized (enter e config.vault) router
      → pos 0 <ℤ amount
      → CanPay b.state amount
      → Chain.transfer c
          (enter (enter e config.vault) b.config.usdc)
          b.config.usdc
          config.vault
          to
          amount
          w.ledger
        ≡ some l
      → vault_pay_out e config node asset to amount w ≡ ok (tt, paid node asset to amount w b l)
  unfolding vault_pay_out
  vault_pay_out_succeeds to router amount w b l wired authorized positive p moved =
      call_contract-reached e (Chain.vault_address c) config.vault
        (λ inner. pay_out inner node asset to amount) w here
      ∙ pay_out_succeeds (enter e config.vault) node asset to router amount w b l wired authorized
          positive p moved

  -- The fee's payment leaves everything but the vault and the ledger alone.
  pub pay_fee_succeeds :
      (router : Address) (fee : ℤ) (w : World c) (b : Backing node asset w) (l : Chain.Ledger c)
      → b.config.router ≡ some router
      → IsAuthorized (enter e config.vault) router
      → (pos 0 <ℤ fee → CanPay b.state fee)
      → Levies c (enter e config.vault) b.config.usdc config.treasury fee w.ledger l
      → (v : World c) × (pay_fee e config node asset fee w ≡ ok (tt, v))
        × (v.auction ≡ w.auction)
        × (v.queue ≡ w.queue)
        × (v.router ≡ w.router)
        × (v.ledger ≡ l)
  unfolding pay_fee paid
  pay_fee_succeeds router fee w b l wired authorized able levies =
      elim (Bool-cases (ltb_ℤ (pos 0) fee)) [
        | inl due ↦
            let positive : pos 0 <ℤ fee = ground (arith, due) in
            (
              paid node asset config.treasury fee w b l,
              rw due (
                  vault_pay_out_succeeds config.treasury router fee w b l wired authorized positive
                    (able positive) (levies.moves positive)),
              refl,
              refl,
              refl,
              refl,
            )
        | inr free ↦ (w, rw free refl, refl, refl, refl, sym (levies.rests (ground (arith, free))))
      ]
