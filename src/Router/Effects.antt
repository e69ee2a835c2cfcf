-- ===== src/Router/Effects.antt =====
-- What the calls of contracts/settlement_router/src/lib.rs that move value have found and done when
-- they succeed.
use stellar_exit_contracts.Router.{escrow, refund, vault_pay_out}
use stellar_exit_contracts.Vault.Effects.{IsAuthorized}
use stellar_exit_contracts.Vault.Effects.Hooks.{PaidOut, pay_out-PaidOut}
use stellar_exit_contracts.Vault.Hooks.{pay_out}
use stellar_exit_contracts.State.Router.{Config, Escrow}
use stellar_exit_contracts.State.Events.{Event, RouterEvent}
use stellar_exit_contracts.Host.Chain.{Address, Env, Chain, World, enter}
use stellar_exit_contracts.Host.Call.{ok}
use stellar_exit_contracts.Prelude.{
  ℕ, ◌≡◌, ◌⊎◌, inl, inr, some, none, ◌∷◌, arith, Option-cases, subst, sym, ==→eq, Bool-cases, ◌==◌,
}
use stellar_exit_contracts.Prelude.Int.{ℤ, pos, ◌<ℤ◌}
use stellar_exit_contracts.Prelude.Dict.{lookup, insert, remove}

module _ {c : Chain} where
  -- The router is initialised and wired.
  pub record Wired (w : World c) : Type 0 where
    pub config : Config
    pub auction : Address
    pub configured : w.router.config ≡ some config
    pub wired : config.auction ≡ some auction

  pub Wired-cases :
      (w : World c)
      → ((w.router.config ≡ none)
          ⊎ ((config : Config) × (w.router.config ≡ some config) × (config.auction ≡ none)))
        ⊎ Wired w
  Wired-cases w = elim (Option-cases w.router.config) [
    | inl e ↦ inl (inl e)
    | inr (config, e) ↦ elim (Option-cases config.auction) [
      | inl u ↦ inl (inr (config, e, u))
      | inr (auction, u) ↦
          inr (record { config = config; auction = auction; configured = e; wired = u })
    ]
  ]

  pub record Escrowed (e : Env) (exit_id seller asset : Address) (amount : ℤ) (w w' : World c)
      : Type 0 where
    pub wiring : Wired w
    pub open wiring use *
    pub ledger : Chain.Ledger c
    pub authorized : IsAuthorized e auction
    pub signed : IsAuthorized e seller
    pub positive : pos 0 <ℤ amount
    pub new : lookup exit_id w.router.escrows ≡ none
    pub moved :
        Chain.transfer c (enter e asset) asset seller e.current amount w.ledger ≡ some ledger
    pub result : w' ≡ record w {
      router = record (w.router) {
        escrows =
            insert exit_id
              (record { seller = seller; asset = asset; amount = amount })
              w.router.escrows;
      };
      ledger = ledger;
      events = Event.router (RouterEvent.escrowed asset exit_id seller amount) ∷ w.events;
    }

  pub escrow-Escrowed :
      (e : Env) (exit_id seller asset : Address) (amount : ℤ) (w w' : World c)
      → escrow e exit_id seller asset amount w ≡ ok (tt, w')
      → Escrowed e exit_id seller asset amount w w'
  unfolding escrow
  escrow-Escrowed e exit_id seller asset amount w w' h = elim (Wired-cases w) [
    | inl missing ↦ absurd (ground arith)
    | inr v ↦
        elim (Option-cases
          (Chain.transfer c (enter e asset) asset seller e.current amount w.ledger)) [
            | inl refused ↦ absurd (ground arith)
            | inr (ledger, moved) ↦ record {
              wiring = v;
              ledger = ledger;
              authorized = ground arith;
              signed = ground arith;
              positive = ground arith;
              new = ground arith;
              moved = moved;
              result = ground arith;
            }
          ]
  ]

  pub record Refunded (e : Env) (exit_id : ℕ) (w w' : World c) : Type 0 where
    pub wiring : Wired w
    pub open wiring use *
    pub held : Escrow
    pub ledger : Chain.Ledger c
    pub authorized : IsAuthorized e auction
    pub stored : lookup exit_id w.router.escrows ≡ some held
    pub moved :
        Chain.transfer c (enter e held.asset) held.asset e.current held.seller held.amount w.ledger
        ≡ some ledger
    pub result : w' ≡ record w {
      router = record (w.router) { escrows = remove exit_id w.router.escrows };
      ledger = ledger;
      events =
          Event.router (RouterEvent.refunded held.asset exit_id held.seller held.amount) ∷ w.events;
    }

  pub refund-Refunded :
      (e : Env) (exit_id : ℕ) (w w' : World c)
      → refund e exit_id w ≡ ok (tt, w')
      → Refunded e exit_id w w'
  unfolding refund
  refund-Refunded e exit_id w w' h = elim (Wired-cases w) [
    | inl missing ↦ absurd (ground arith)
    | inr v ↦ elim (Option-cases (lookup exit_id w.router.escrows)) [
      | inl nothing ↦ absurd (ground arith)
      | inr (held, stored) ↦
          elim (Option-cases (
            Chain.transfer c (enter e held.asset) held.asset e.current held.seller held.amount
              w.ledger)) [
                | inl refused ↦ absurd (ground arith)
                | inr (ledger, moved) ↦ record {
                  wiring = v;
                  held = held;
                  ledger = ledger;
                  authorized = ground arith;
                  stored = stored;
                  moved = moved;
                  result = ground arith;
                }
              ]
    ]
  ]

  -- A payment that the vault makes for the router.
  pub vault_pay_out-PaidOut :
      (e : Env) (config : Config) (node asset to : Address) (amount : ℤ) (w w' : World c)
      → vault_pay_out e config node asset to amount w ≡ ok (tt, w')
      → PaidOut (enter e (Chain.vault_address c)) node asset amount to w w'
  unfolding vault_pay_out
  vault_pay_out-PaidOut e config node asset to amount w w' h =
      elim (Bool-cases (Chain.vault_address c == config.vault)) [
        | inl here ↦ pay_out-PaidOut (enter e (Chain.vault_address c)) node asset amount to w w' (
            subst (λ a. pay_out (enter e a) node asset to amount w ≡ ok (tt, w'))
              (sym (==→eq (Chain.vault_address c) config.vault here)) (rw here at h))
        | inr elsewhere ↦ absurd (ground arith)
      ]
