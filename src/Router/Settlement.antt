-- ===== src/Router/Settlement.antt =====
-- A settlement that succeeds (contracts/settlement_router/src/lib.rs, `settle`): both legs, one after
-- the other.
use stellar_exit_contracts.Router.Effects.{Wired, Wired-cases}
use stellar_exit_contracts.Router.{settle, vault_pay_out, pay_fee, put_remaining, split_fee}
use stellar_exit_contracts.Router.Fees.{split_fee_lem}
use stellar_exit_contracts.Vault.Effects.{IsAuthorized}
use stellar_exit_contracts.State.Router.{Config, Escrow}
use stellar_exit_contracts.State.Errors.{Error}
use stellar_exit_contracts.Host.Chain.{Address, Env, Chain, World, enter}
use stellar_exit_contracts.Host.Call.{Result-cases, ok, err, Result-cases}
use stellar_exit_contracts.Prelude.{
  ℕ, ◌≡◌, ap, ◌∙◌, ◌⊎◌, inl, inr, some, none, arith, Option-cases, ◌&&◌, if◌then◌else◌,
}
use stellar_exit_contracts.Prelude.Int.{ℤ, pos, ◌-ℤ◌, ◌≤ℤ◌, ◌<ℤ◌, leb_ℤ}
use stellar_exit_contracts.Prelude.Dict.{lookup, insert, remove}

module _ {c : Chain} where
  -- What a settlement leaves of the escrow.
  unfoldable pub left_over : ℕ → Escrow → ℤ → World c → World c
  left_over exit_id held remaining w =
      if leb_ℤ remaining (pos 0) && leb_ℤ (pos 0) remaining
      then record w { router = record (w.router) { escrows = remove exit_id w.router.escrows } }
      else record w {
        router = record (w.router) {
          escrows = insert exit_id (record held { amount = remaining }) w.router.escrows;
        };
      }

module _ {c : Chain} (e : Env) (node : Address) (token_amount usdc_amount : ℤ) where
  -- Both legs of a settlement: the vault pays the seller (`paid`), then the treasury (`levied`), then
  -- the tokens move (`ledger`).
  pub record Legs (config : Config) (held : Escrow) (w : World c) : Type 0 where
    pub fee : ℤ
    pub net : ℤ
    pub paid : World c
    pub levied : World c
    pub ledger : Chain.Ledger c
    pub split : split_fee config usdc_amount w ≡ ok ((fee, net), w)
    pub to_seller : vault_pay_out e config node held.asset held.seller net w ≡ ok (tt, paid)
    pub to_treasury : pay_fee e config node held.asset fee paid ≡ ok (tt, levied)
    pub moved :
        Chain.transfer c (enter e held.asset) held.asset e.current node token_amount levied.ledger
        ≡ some ledger

  -- One of the legs fails, and how.
  data Refused (config : Config) (held : Escrow) (w : World c) : Type 0 where
    no_split : (x : Error) → split_fee config usdc_amount w ≡ err x → Refused config held w
    no_pay :
        (x : Error) (fee net : ℤ)
        → split_fee config usdc_amount w ≡ ok ((fee, net), w)
        → vault_pay_out e config node held.asset held.seller net w ≡ err x
        → Refused config held w
    no_levy :
        (x : Error) (fee net : ℤ) (paid : World c)
        → split_fee config usdc_amount w ≡ ok ((fee, net), w)
        → vault_pay_out e config node held.asset held.seller net w ≡ ok (tt, paid)
        → pay_fee e config node held.asset fee paid ≡ err x
        → Refused config held w
    no_tokens :
        (fee net : ℤ) (paid levied : World c)
        → split_fee config usdc_amount w ≡ ok ((fee, net), w)
        → vault_pay_out e config node held.asset held.seller net w ≡ ok (tt, paid)
        → pay_fee e config node held.asset fee paid ≡ ok (tt, levied)
        → Chain.transfer c (enter e held.asset) held.asset e.current node token_amount levied.ledger
          ≡ none
        → Refused config held w

  Legs-after_split :
      (config : Config) (held : Escrow) (w : World c) (fee net : ℤ)
      → split_fee config usdc_amount w ≡ ok ((fee, net), w)
      → Refused config held w ⊎ Legs config held w
  Legs-after_split config held w fee net split =
      elim (Result-cases (vault_pay_out e config node held.asset held.seller net w)) [
        | inl (x, e2) ↦ inl (no_pay x fee net split e2)
        | inr (_, paid, e2) ↦ elim (Result-cases (pay_fee e config node held.asset fee paid)) [
          | inl (x, e3) ↦ inl (no_levy x fee net paid split e2 e3)
          | inr (_, levied, e3) ↦
              elim (Option-cases (
                Chain.transfer c (enter e held.asset) held.asset e.current node token_amount
                  levied.ledger)) [
                    | inl e4 ↦ inl (no_tokens fee net paid levied split e2 e3 e4)
                    | inr (ledger, e4) ↦ inr (record {
                      fee = fee;
                      net = net;
                      paid = paid;
                      levied = levied;
                      ledger = ledger;
                      split = split;
                      to_seller = e2;
                      to_treasury = e3;
                      moved = e4;
                    })
                  ]
        ]
      ]

  Legs-cases :
      (config : Config) (held : Escrow) (w : World c) → Refused config held w ⊎ Legs config held w
  Legs-cases config held w = elim (Result-cases (split_fee config usdc_amount w)) [
    | inl (x, e1) ↦ inl (no_split x e1)
    | inr ((fee, net), u, e1) ↦
        Legs-after_split config held w fee net
          (e1 ∙ ap (λ v. ok ((fee, net), v)) (split_fee_lem config usdc_amount w fee net u e1).2)
  ]

  pub record Settled (exit_id : ℕ) (w w' : World c) : Type 0 where
    pub wiring : Wired w
    pub open wiring use *
    pub held : Escrow
    pub legs : Legs config held w
    pub open legs use *
    pub authorized : IsAuthorized e auction
    pub tokens_positive : pos 0 <ℤ token_amount
    pub usdc_positive : pos 0 <ℤ usdc_amount
    pub stored : lookup exit_id w.router.escrows ≡ some held
    pub enough : token_amount ≤ℤ held.amount
    pub vault : w'.vault ≡ levied.vault
    pub router :
        w'.router
        ≡ (left_over exit_id held
            (held.amount -ℤ token_amount)
            (record levied { ledger = ledger })).router
    pub result_ledger : w'.ledger ≡ ledger
    pub auction_kept : w'.auction ≡ levied.auction
    pub queue_kept : w'.queue ≡ levied.queue

  pub settle-Settled :
      (exit_id : ℕ) (w w' : World c)
      → settle e exit_id node token_amount usdc_amount w ≡ ok (tt, w')
      → Settled exit_id w w'
  unfolding settle put_remaining left_over
  settle-Settled exit_id w w' h = elim (Wired-cases w) [
    | inl missing ↦ absurd (ground arith)
    | inr v ↦ elim (Option-cases (lookup exit_id w.router.escrows)) [
      | inl nothing ↦ absurd (ground arith)
      | inr (held, stored) ↦ elim (Legs-cases v.config held w) [
        | inl (no_split x e1) ↦ absurd (ground arith)
        | inl (no_pay x fee net e1 e2) ↦ absurd (ground arith)
        | inl (no_levy x fee net paid e1 e2 e3) ↦ absurd (ground arith)
        | inl (no_tokens fee net paid levied e1 e2 e3 e4) ↦ absurd (ground arith)
        | inr l ↦ record {
          wiring = v;
          held = held;
          legs = l;
          authorized = ground (arith, l.split);
          tokens_positive = ground (arith, l.split);
          usdc_positive = ground (arith, l.split);
          stored = stored;
          enough = ground (arith, l.split);
          vault = ground (arith, l.split, l.to_seller, l.to_treasury, l.moved);
          router = ground (arith, l.split, l.to_seller, l.to_treasury, l.moved);
          result_ledger = ground (arith, l.split, l.to_seller, l.to_treasury, l.moved);
          auction_kept = ground (arith, l.split, l.to_seller, l.to_treasury, l.moved);
          queue_kept = ground (arith, l.split, l.to_seller, l.to_treasury, l.moved);
        }
      ]
    ]
  ]
