-- ===== src/Router/Operations.antt =====
-- The calls of contracts/settlement_router/src/lib.rs that change its state, as one type, and the
-- invariant that all of them keep.
use stellar_exit_contracts.Router
use stellar_exit_contracts.Router.Cover.{IsCovered}
use stellar_exit_contracts.Router.Cover.Steps.{escrow-IsCovered, refund-IsCovered}
use stellar_exit_contracts.Router.Cover.Settle.{settle-IsCovered, settle_config}
use stellar_exit_contracts.Router.Effects.{escrow-Escrowed, refund-Refunded}
use stellar_exit_contracts.Vault.Solvency.{IsOutside}
use stellar_exit_contracts.State.Router.{Config, max_protocol_fee_bps}
use stellar_exit_contracts.Host.Chain.{Address, Env, Chain, World, Sep41}
use stellar_exit_contracts.Host.Call.{Call, ok}
use stellar_exit_contracts.Prelude.{ℕ, ◌≤◌, ◌≡◌, ◌≢◌, Option, some, none, arith}
use stellar_exit_contracts.Prelude.Int.{ℤ}

pub data Operation : Type 0 where
  initialize : Address → Address → Address → Address → ℕ → Operation
  set_auction set_admin set_treasury : Address → Operation
  set_protocol_fee_bps : ℕ → Operation
  escrow : ℕ → Address → Address → ℤ → Operation
  settle : ℕ → Address → ℤ → ℤ → Operation
  refund : ℕ → Operation

-- The fee is within its ceiling.
abbrev pub FeeIsCapped : Option Config → Type 0
FeeIsCapped none = Unit
FeeIsCapped (some config) = config.protocol_fee_bps ≤ max_protocol_fee_bps

module _ {c : Chain} where
  unfoldable pub perform : Operation → Env → Call c (Unit {0})
  perform (Operation.initialize admin vault usdc treasury bps) e =
      Router.initialize e admin vault usdc treasury bps
  perform (Operation.set_auction a) e = Router.set_auction e a
  perform (Operation.set_admin a) e = Router.set_admin e a
  perform (Operation.set_treasury a) e = Router.set_treasury e a
  perform (Operation.set_protocol_fee_bps bps) e = Router.set_protocol_fee_bps e bps
  perform (Operation.escrow exit_id seller asset amount) e =
      Router.escrow e exit_id seller asset amount
  perform (Operation.settle exit_id node token_amount usdc_amount) e =
      Router.settle e exit_id node token_amount usdc_amount
  perform (Operation.refund exit_id) e = Router.refund e exit_id

  pub record IsSecure (self : Address) (w : World c) : Type 0 where
    pub cover : IsCovered self w
    pub fee : FeeIsCapped w.router.config

  -- What a configuration call does.
  record Reconfigured (w w' : World c) : Type 0 where
    escrows : w'.router.escrows ≡ w.router.escrows
    ledger : w'.ledger ≡ w.ledger
    fee : FeeIsCapped w'.router.config

  Reconfigured-IsSecure :
      {self : Address} {w w' : World c} → IsSecure self w → Reconfigured w w' → IsSecure self w'
  Reconfigured-IsSecure s r = record {
    cover = record {
      positive = rw (r.escrows) s.cover.positive;
      covered = λ t. rw (r.escrows, r.ledger) (s.cover.covered t);
    };
    fee = r.fee;
  }

  module _ (e : Env) (w w' : World c) (capped : FeeIsCapped w.router.config) where
    initialize-Reconfigured :
        (admin vault usdc treasury : Address) (bps : ℕ)
        → Router.initialize e admin vault usdc treasury bps w ≡ ok (tt, w')
        → Reconfigured w w'
    unfolding Router.initialize
    initialize-Reconfigured admin vault usdc treasury bps h = ground arith

    set_auction-Reconfigured :
        (a : Address) → Router.set_auction e a w ≡ ok (tt, w') → Reconfigured w w'
    unfolding Router.set_auction
    set_auction-Reconfigured a h = ground arith

    set_admin-Reconfigured :
        (a : Address) → Router.set_admin e a w ≡ ok (tt, w') → Reconfigured w w'
    unfolding Router.set_admin
    set_admin-Reconfigured a h = ground arith

    set_treasury-Reconfigured :
        (a : Address) → Router.set_treasury e a w ≡ ok (tt, w') → Reconfigured w w'
    unfolding Router.set_treasury
    set_treasury-Reconfigured a h = ground arith

    set_protocol_fee_bps-Reconfigured :
        (bps : ℕ) → Router.set_protocol_fee_bps e bps w ≡ ok (tt, w') → Reconfigured w w'
    unfolding Router.set_protocol_fee_bps
    set_protocol_fee_bps-Reconfigured bps h = ground arith

  -- Every call of the router that succeeds keeps the escrow covered, asset by asset, with no empty
  -- record in it, and the fee within its ceiling, if tokens move balances as SEP-41 says, no caller
  -- passes for the router itself, and the vault stands at another address.
  pub perform-IsSecure :
      (op : Operation) (e : Env) (w w' : World c)
      → Sep41 c
      → IsOutside e
      → e.current ≢ Chain.vault_address c
      → IsSecure e.current w
      → perform op e w ≡ ok (tt, w')
      → IsSecure e.current w'
  unfolding perform
  perform-IsSecure (Operation.initialize admin vault usdc treasury bps) e w w' law out apart s h =
      Reconfigured-IsSecure s (initialize-Reconfigured e w w' s.fee admin vault usdc treasury bps h)
  perform-IsSecure (Operation.set_auction a) e w w' law out apart s h =
      Reconfigured-IsSecure s (set_auction-Reconfigured e w w' s.fee a h)
  perform-IsSecure (Operation.set_admin a) e w w' law out apart s h =
      Reconfigured-IsSecure s (set_admin-Reconfigured e w w' s.fee a h)
  perform-IsSecure (Operation.set_treasury a) e w w' law out apart s h =
      Reconfigured-IsSecure s (set_treasury-Reconfigured e w w' s.fee a h)
  perform-IsSecure (Operation.set_protocol_fee_bps bps) e w w' law out apart s h =
      Reconfigured-IsSecure s (set_protocol_fee_bps-Reconfigured e w w' s.fee bps h)
  perform-IsSecure (Operation.escrow exit_id seller asset amount) e w w' law out apart s h =
      record {
        cover = escrow-IsCovered law e exit_id w w' s.cover seller asset amount out h;
        fee = rw ((escrow-Escrowed e exit_id seller asset amount w w' h).result) s.fee;
      }
  perform-IsSecure (Operation.settle exit_id node token usdc) e w w' law out apart s h = record {
    cover = settle-IsCovered law e exit_id node token usdc w w' s.cover apart h;
    fee = rw (settle_config law e exit_id node token usdc w w' apart h) s.fee;
  }
  perform-IsSecure (Operation.refund exit_id) e w w' law out apart s h = record {
    cover = refund-IsCovered law e exit_id w w' s.cover h;
    fee = rw ((refund-Refunded e exit_id w w' h).result) s.fee;
  }
