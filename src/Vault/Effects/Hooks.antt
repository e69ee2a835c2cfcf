-- ===== src/Vault/Effects/Hooks.antt =====
-- What `commit`, `release` and `pay_out` have found and done when they succeed.
use stellar_exit_contracts.Vault.Effects.{IsAuthorized, Backing, Backing-cases}
use stellar_exit_contracts.Vault.Hooks.{reserved, commit, release, pay_out}
use stellar_exit_contracts.State.Vault.{bps_denominator, min_backing_age}
use stellar_exit_contracts.State.Events.{Event, VaultEvent}
use stellar_exit_contracts.Host.Chain.{Address, Env, Chain, World, enter}
use stellar_exit_contracts.Host.Call.{ok}
use stellar_exit_contracts.Prelude.{
  ℕ, ◌∷◌, ◌+◌, ◌≤◌, ◌≡◌, some, true, arith, inl, inr, Option-cases,
}
use stellar_exit_contracts.Prelude.Int.{ℤ, pos, ◌+ℤ◌, ◌-ℤ◌, ◌*ℤ◌, quot, ◌≤ℤ◌, ◌<ℤ◌}
use stellar_exit_contracts.Prelude.Dict.{insert, update₂}

module _ {c : Chain} (e : Env) (node asset : Address) (amount : ℤ) where
  pub record Committed (discount_bps : ℕ) (w w' : World c) : Type 0 where
    pub backing : Backing node asset w
    pub open backing use *
    pub auction : Address
    pub wired : config.auction ≡ some auction
    pub authorized : IsAuthorized e auction
    pub positive : pos 0 <ℤ amount
    pub active : appetite.active ≡ true
    pub aged : appetite.backed_at + min_backing_age ≤ e.timestamp
    pub loose : appetite.min_discount_bps ≤ discount_bps
    pub free : amount ≤ℤ state.deposited -ℤ state.committed -ℤ reserved (w.vault.withdrawals node)
    pub headroom : appetite.exposure +ℤ amount ≤ℤ appetite.max_exposure
    pub capped :
        amount ≤ℤ quot (state.deposited *ℤ pos config.max_single_fill_bps) (pos bps_denominator)
    pub result : w' ≡ record w {
      vault = record (w.vault) {
        nodes = insert node (record state { committed = state.committed +ℤ amount }) w.vault.nodes;
        appetites =
            update₂ node asset
              (some (record appetite { exposure = appetite.exposure +ℤ amount }))
              w.vault.appetites;
      };
      events = Event.vault (VaultEvent.committed node asset amount) ∷ w.events;
    }

  pub commit-Committed :
      (discount_bps : ℕ) (w w' : World c)
      → commit e node asset amount discount_bps w ≡ ok (tt, w')
      → Committed discount_bps w w'
  unfolding commit
  commit-Committed discount_bps w w' h = elim (Backing-cases node asset w) [
    | inl missing ↦ absurd (ground arith)
    | inr b ↦ elim (Option-cases b.config.auction) [
      | inl unwired ↦ absurd (ground arith)
      | inr (auction, wired) ↦ record {
        backing = b;
        auction = auction;
        wired = wired;
        authorized = ground arith;
        positive = ground arith;
        active = ground arith;
        aged = ground arith;
        loose = ground arith;
        free = ground arith;
        headroom = ground arith;
        capped = ground arith;
        result = ground arith;
      }
    ]
  ]

  pub record Released (w w' : World c) : Type 0 where
    pub backing : Backing node asset w
    pub open backing use *
    pub auction : Address
    pub wired : config.auction ≡ some auction
    pub authorized : IsAuthorized e auction
    pub positive : pos 0 <ℤ amount
    pub covered : amount ≤ℤ state.committed
    pub exposed : amount ≤ℤ appetite.exposure
    pub result : w' ≡ record w {
      vault = record (w.vault) {
        nodes = insert node (record state { committed = state.committed -ℤ amount }) w.vault.nodes;
        appetites =
            update₂ node asset
              (some (record appetite { exposure = appetite.exposure -ℤ amount }))
              w.vault.appetites;
      };
      events = Event.vault (VaultEvent.released node asset amount) ∷ w.events;
    }

  pub release-Released :
      (w w' : World c) → release e node asset amount w ≡ ok (tt, w') → Released w w'
  unfolding release
  release-Released w w' h = elim (Backing-cases node asset w) [
    | inl missing ↦ absurd (ground arith)
    | inr b ↦ elim (Option-cases b.config.auction) [
      | inl unwired ↦ absurd (ground arith)
      | inr (auction, wired) ↦ record {
        backing = b;
        auction = auction;
        wired = wired;
        authorized = ground arith;
        positive = ground arith;
        covered = ground arith;
        exposed = ground arith;
        result = ground arith;
      }
    ]
  ]

  pub record PaidOut (to : Address) (w w' : World c) : Type 0 where
    pub backing : Backing node asset w
    pub open backing use *
    pub router : Address
    pub ledger : Chain.Ledger c
    pub wired : config.router ≡ some router
    pub authorized : IsAuthorized e router
    pub positive : pos 0 <ℤ amount
    pub covered : amount ≤ℤ state.committed
    pub held : amount ≤ℤ state.deposited
    pub moved :
        Chain.transfer c (enter e config.usdc) config.usdc e.current to amount w.ledger
        ≡ some ledger
    pub result : w' ≡ record w {
      vault = record (w.vault) {
        nodes =
            insert node
              (record state {
                committed = state.committed -ℤ amount;
                deposited = state.deposited -ℤ amount;
                filled = state.filled +ℤ amount;
              })
              w.vault.nodes;
      };
      ledger = ledger;
      events = Event.vault (VaultEvent.paid_out node asset to amount) ∷ w.events;
    }

  pub pay_out-PaidOut :
      (to : Address) (w w' : World c)
      → pay_out e node asset to amount w ≡ ok (tt, w')
      → PaidOut to w w'
  unfolding pay_out
  pay_out-PaidOut to w w' h = elim (Backing-cases node asset w) [
    | inl missing ↦ absurd (ground arith)
    | inr b ↦ elim (Option-cases b.config.router) [
      | inl unwired ↦ absurd (ground arith)
      | inr (router, wired) ↦
          elim (Option-cases
            (Chain.transfer c (enter e b.config.usdc) b.config.usdc e.current to amount w.ledger)) [
              | inl refused ↦ absurd (ground arith)
              | inr (ledger, moved) ↦ record {
                backing = b;
                router = router;
                ledger = ledger;
                wired = wired;
                authorized = ground arith;
                positive = ground arith;
                covered = ground arith;
                held = ground arith;
                moved = moved;
                result = ground arith;
              }
            ]
    ]
  ]
