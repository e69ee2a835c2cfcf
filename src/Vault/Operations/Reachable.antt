-- ===== src/Vault/Operations/Reachable.antt =====
-- Every vault call, and every history of the chain, keeps the vault solvent.
use stellar_exit_contracts.Vault.Operations.{Operation, perform}
use stellar_exit_contracts.Vault.Lifecycle.{
  initialize, set_auction, set_router, set_admin, set_max_single_fill_bps,
}
use stellar_exit_contracts.Vault.Effects.Terms.{
  SameMoney, set_appetite-SameMoney, reduce_exposure-SameMoney,
}
use stellar_exit_contracts.Vault.Solvency.{IsBacked, IsSolvent, IsOutside}
use stellar_exit_contracts.Vault.Solvency.Hooks.{
  commit-IsSolvent, release-IsSolvent, pay_out-IsSolvent,
}
use stellar_exit_contracts.Vault.Solvency.Capital.{
  deposit-IsSolvent, request_withdrawal-IsSolvent, cancel_withdrawal-IsSolvent,
  execute_withdrawal-IsSolvent,
}
use stellar_exit_contracts.State.Vault.{Config, Node}
use stellar_exit_contracts.Host.Chain.{Address, Env, Chain, World, Sep41}
use stellar_exit_contracts.Host.Call.{ok}
use stellar_exit_contracts.Prelude.{ℕ, ◌≤◌, ◌≡◌, refl, Option, some, none, [], arith, subst, sym}
use stellar_exit_contracts.Prelude.Int.{ℤ}
use stellar_exit_contracts.Prelude.Dict.{Dict, total, lookup}

-- The USDC contract that the one configuration names is the other's, once there is one.
abbrev SameUsdc : Option Config → Option Config → Type 0
SameUsdc none _ = Unit
SameUsdc (some a) none = ⊥
SameUsdc (some a) (some b) = b.usdc ≡ a.usdc

SameUsdc-refl : (o : Option Config) → SameUsdc o o
SameUsdc-refl none = tt
SameUsdc-refl (some a) = refl

SameUsdc-IsBacked :
    (c : Chain) (self : Address) (nodes : Dict Node) (l : Chain.Ledger c) (o o' : Option Config)
    → SameUsdc o o'
    → IsBacked c self o nodes l
    → IsBacked c self o' nodes l
SameUsdc-IsBacked c self nodes l none none same b = b
SameUsdc-IsBacked c self nodes l none (some a) same b = omega (arith, b)
SameUsdc-IsBacked c self nodes l (some a) none same b = absurd same
SameUsdc-IsBacked c self nodes l (some a) (some a') same b = rw same b

module _ {c : Chain} where
  -- What a configuration call keeps: the accounts, the money and the USDC contract.
  record Rewired (w w' : World c) : Type 0 where
    nodes : w'.vault.nodes ≡ w.vault.nodes
    withdrawals : w'.vault.withdrawals ≡ w.vault.withdrawals
    ledger : w'.ledger ≡ w.ledger
    usdc : SameUsdc w.vault.config w'.vault.config

  Rewired-IsSolvent :
      {self : Address} {w w' : World c} → IsSolvent self w → Rewired w w' → IsSolvent self w'
  Rewired-IsSolvent {self} {w} {w'} s r = record {
    accounts = rw (r.nodes, r.withdrawals) s.accounts;
    backed =
        rw (r.nodes, r.ledger)
          (SameUsdc-IsBacked c self w.vault.nodes w.ledger _ w'.vault.config r.usdc s.backed);
  }

  SameMoney-Rewired : {w w' : World c} → SameMoney w w' → Rewired w w'
  SameMoney-Rewired {w} m = record {
    nodes = m.nodes;
    withdrawals = m.withdrawals;
    ledger = m.ledger;
    usdc = rw (m.config) (SameUsdc-refl w.vault.config);
  }

  module _ (e : Env) (w w' : World c) where
    initialize-Rewired :
        (admin usdc : Address) (min : ℤ) (cap lock : Option ℕ)
        → initialize e admin usdc min cap lock w ≡ ok (tt, w')
        → Rewired w w'
    unfolding initialize
    initialize-Rewired admin usdc min cap lock h = ground arith

    set_auction-Rewired : (a : Address) → set_auction e a w ≡ ok (tt, w') → Rewired w w'
    unfolding set_auction
    set_auction-Rewired a h = ground arith

    set_router-Rewired : (a : Address) → set_router e a w ≡ ok (tt, w') → Rewired w w'
    unfolding set_router
    set_router-Rewired a h = ground arith

    set_admin-Rewired : (a : Address) → set_admin e a w ≡ ok (tt, w') → Rewired w w'
    unfolding set_admin
    set_admin-Rewired a h = ground arith

    set_max_single_fill_bps-Rewired :
        (bps : ℕ) → set_max_single_fill_bps e bps w ≡ ok (tt, w') → Rewired w w'
    unfolding set_max_single_fill_bps
    set_max_single_fill_bps-Rewired bps h = ground arith

  -- Whatever the vault is called with, a call that succeeds keeps every account covered and the
  -- deposits backed by USDC, if the token moves balances as SEP-41 says and no caller passes for
  -- the vault itself.
  pub perform-IsSolvent :
      (op : Operation) (e : Env) (w w' : World c)
      → Sep41 c
      → IsOutside e
      → IsSolvent e.current w
      → perform op e w ≡ ok (tt, w')
      → IsSolvent e.current w'
  unfolding perform
  perform-IsSolvent (Operation.initialize admin usdc min cap lock) e w w' law out s h =
      Rewired-IsSolvent s (initialize-Rewired e w w' admin usdc min cap lock h)
  perform-IsSolvent (Operation.set_auction a) e w w' law out s h =
      Rewired-IsSolvent s (set_auction-Rewired e w w' a h)
  perform-IsSolvent (Operation.set_router a) e w w' law out s h =
      Rewired-IsSolvent s (set_router-Rewired e w w' a h)
  perform-IsSolvent (Operation.set_admin a) e w w' law out s h =
      Rewired-IsSolvent s (set_admin-Rewired e w w' a h)
  perform-IsSolvent (Operation.set_max_single_fill_bps bps) e w w' law out s h =
      Rewired-IsSolvent s (set_max_single_fill_bps-Rewired e w w' bps h)
  perform-IsSolvent (Operation.deposit node amount) e w w' law out s h =
      deposit-IsSolvent e node w w' s amount law out h
  perform-IsSolvent (Operation.request_withdrawal node amount) e w w' law out s h =
      request_withdrawal-IsSolvent e node amount w w' s h
  perform-IsSolvent (Operation.cancel_withdrawal node) e w w' law out s h =
      cancel_withdrawal-IsSolvent e node w w' s h
  perform-IsSolvent (Operation.execute_withdrawal node) e w w' law out s h =
      execute_withdrawal-IsSolvent e node w w' s law h
  perform-IsSolvent (Operation.set_appetite node asset exposure discount active) e w w' law out s
        h =
      Rewired-IsSolvent s
        (SameMoney-Rewired (set_appetite-SameMoney e node asset exposure discount active w w' h))
  perform-IsSolvent (Operation.reduce_exposure node asset amount) e w w' law out s h =
      Rewired-IsSolvent s (SameMoney-Rewired (reduce_exposure-SameMoney e node asset amount w w' h))
  perform-IsSolvent (Operation.commit node asset amount discount) e w w' law out s h =
      commit-IsSolvent e node asset amount w w' s discount h
  perform-IsSolvent (Operation.release node asset amount) e w w' law out s h =
      release-IsSolvent e node asset amount w w' s h
  perform-IsSolvent (Operation.pay_out node asset to amount) e w w' law out s h =
      pay_out-IsSolvent e node asset amount w w' s to law h

-- A change that is not the vault's: it leaves the vault's storage alone and takes none of its USDC.
pub record Elsewhere {c : Chain} (self : Address) (w w' : World c) : Type 0 where
  pub vault : w'.vault ≡ w.vault
  pub usdc :
      (config : Config)
      → w.vault.config ≡ some config
      → Chain.balance c w.ledger config.usdc self ≤ Chain.balance c w'.ledger config.usdc self

-- Before anything happens the vault has stored nothing.
pub record IsFresh {c : Chain} (w : World c) : Type 0 where
  pub config : w.vault.config ≡ none
  pub nodes : w.vault.nodes ≡ []
  pub withdrawals : (a : Address) → w.vault.withdrawals a ≡ none

-- The histories of the chain, as the vault at `self` sees them.
pub data Reach {c : Chain} (self : Address) (start : World c) : World c → Type 0 where
  here : Reach self start start
  called :
      {w w' : World c} (op : Operation) (e : Env)
      → Reach self start w
      → e.current ≡ self
      → IsOutside e
      → perform op e w ≡ ok (tt, w')
      → Reach self start w'
  elsewhere : {w w' : World c} → Reach self start w → Elsewhere self w w' → Reach self start w'

module _ {c : Chain} (self : Address) where
  IsFresh-IsSolvent : (w : World c) → IsFresh w → IsSolvent self w
  unfolding lookup total
  IsFresh-IsSolvent w f = record {
    accounts = λ b. rw (f.nodes, f.withdrawals b) refl;
    backed = rw (f.config, f.nodes) refl;
  }

  pub Elsewhere-IsSolvent :
      {w w' : World c} → IsSolvent self w → Elsewhere self w w' → IsSolvent self w'
  Elsewhere-IsSolvent {w} {w'} s m = record {
    accounts = rw (m.vault) s.accounts;
    backed = rw (m.vault) (kept w.vault.config refl s.backed);
  }
    where
      kept :
          (config : Option Config)
          → w.vault.config ≡ config
          → IsBacked c self config w.vault.nodes w.ledger
          → IsBacked c self config w.vault.nodes w'.ledger
      kept none e b = b
      kept (some config) e b = omega (arith, b, m.usdc config e)

  -- From a vault that has stored nothing, every history of vault calls that succeed, with any
  -- changes elsewhere that take none of the vault's USDC between them, leaves the vault solvent,
  -- under the same conditions on the token and the callers.
  pub Reach-IsSolvent :
      (start : World c) {w : World c}
      → Sep41 c
      → IsFresh start
      → Reach self start w
      → IsSolvent self w
  Reach-IsSolvent start law f here = IsFresh-IsSolvent start f
  Reach-IsSolvent start law f (called {w} {w'} op e r own out h) =
      subst (λ a. IsSolvent a w') own
        (perform-IsSolvent op e w w' law out
          (subst (λ a. IsSolvent a w) (sym own) (Reach-IsSolvent start law f r)) h)
  Reach-IsSolvent start law f (elsewhere r m) =
      Elsewhere-IsSolvent (Reach-IsSolvent start law f r) m
