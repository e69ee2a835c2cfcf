-- ===== src/System/Funds/Others.antt =====
-- The calls of contracts/settlement_router/src/lib.rs and contracts/fifo_queue/src/lib.rs that come from
-- outside leave the vault's USDC where it is.
use stellar_exit_contracts.System.{IsWired, IsExternal}
use stellar_exit_contracts.System.Funds.{IsFunded, kept-IsSolvent, kept-IsFunded}
use stellar_exit_contracts.System.Outside.{
  router-initialize-refused, escrow-refused, settle-refused, refund-refused,
  queue-initialize-refused, enqueue-refused, dequeue-refused,
}
use stellar_exit_contracts.Vault.Solvency.{IsSolvent}
use stellar_exit_contracts.Router
use stellar_exit_contracts.Router.Operations as RouterOperations
use stellar_exit_contracts.Queue
use stellar_exit_contracts.Queue.Operations as QueueOperations
use stellar_exit_contracts.Queue.Operations.{enqueue_answer}
use stellar_exit_contracts.Host.Chain.{Address, Env, Chain, World}
use stellar_exit_contracts.Host.Call.{ok}
use stellar_exit_contracts.Prelude.{ℕ, ◌≡◌, arith}

module _ {c : Chain} (e : Env) (w w' : World c) (k : IsFunded w) where
  abbrev SameDeposits : Type 0
  SameDeposits = (w'.vault ≡ w.vault) × (w'.ledger ≡ w.ledger)

  same_deposits-IsSolvent : SameDeposits → IsSolvent (Chain.vault_address c) w'
  same_deposits-IsSolvent (vault, ledger) = kept-IsSolvent k.solvent vault ledger

  set_auction_kept : (a : Address) → Router.set_auction e a w ≡ ok (tt, w') → SameDeposits
  unfolding Router.set_auction
  set_auction_kept a h = (ground arith, ground arith)

  set_admin_kept : (a : Address) → Router.set_admin e a w ≡ ok (tt, w') → SameDeposits
  unfolding Router.set_admin
  set_admin_kept a h = (ground arith, ground arith)

  set_treasury_kept : (a : Address) → Router.set_treasury e a w ≡ ok (tt, w') → SameDeposits
  unfolding Router.set_treasury
  set_treasury_kept a h = (ground arith, ground arith)

  set_protocol_fee_bps_kept :
      (bps : ℕ) → Router.set_protocol_fee_bps e bps w ≡ ok (tt, w') → SameDeposits
  unfolding Router.set_protocol_fee_bps
  set_protocol_fee_bps_kept bps h = (ground arith, ground arith)

  queue-set_auction-IsFunded : (a : Address) → Queue.set_auction e a w ≡ ok (tt, w') → IsFunded w'
  unfolding Queue.set_auction
  queue-set_auction-IsFunded a h = kept-IsFunded k (ground arith) (ground arith) (ground arith)

module _ {c : Chain} (self : Address) (e : Env) (x : IsExternal self (Chain.router_address c) e)
    (w w' : World c) (v : IsWired self w) (k : IsFunded w) where
  pub router-perform-IsSolvent :
      (op : RouterOperations.Operation)
      → RouterOperations.perform op e w ≡ ok (tt, w')
      → IsSolvent (Chain.vault_address c) w'
  unfolding RouterOperations.perform
  router-perform-IsSolvent (RouterOperations.initialize admin vault usdc treasury bps) h =
      absurd (router-initialize-refused self e w w' x v admin vault usdc treasury bps h)
  router-perform-IsSolvent (RouterOperations.set_auction a) h =
      same_deposits-IsSolvent e w w' k (set_auction_kept e w w' k a h)
  router-perform-IsSolvent (RouterOperations.set_admin a) h =
      same_deposits-IsSolvent e w w' k (set_admin_kept e w w' k a h)
  router-perform-IsSolvent (RouterOperations.set_treasury a) h =
      same_deposits-IsSolvent e w w' k (set_treasury_kept e w w' k a h)
  router-perform-IsSolvent (RouterOperations.set_protocol_fee_bps bps) h =
      same_deposits-IsSolvent e w w' k (set_protocol_fee_bps_kept e w w' k bps h)
  router-perform-IsSolvent (RouterOperations.escrow exit_id seller asset amount) h =
      absurd (escrow-refused self e w w' x v exit_id seller asset amount h)
  router-perform-IsSolvent (RouterOperations.settle exit_id node token_amount usdc_amount) h =
      absurd (settle-refused self e w w' x v exit_id node token_amount usdc_amount h)
  router-perform-IsSolvent (RouterOperations.refund exit_id) h =
      absurd (refund-refused self e w w' x v exit_id h)

  pub queue-perform-IsFunded :
      (op : QueueOperations.Operation) → QueueOperations.perform op e w ≡ ok (tt, w') → IsFunded w'
  unfolding QueueOperations.perform
  queue-perform-IsFunded (QueueOperations.initialize admin) h =
      absurd (queue-initialize-refused self e w w' x v admin h)
  queue-perform-IsFunded (QueueOperations.set_auction a) h = queue-set_auction-IsFunded e w w' k a h
  queue-perform-IsFunded (QueueOperations.enqueue asset exit_id) h =
      let (place, done) = enqueue_answer e w w' asset exit_id h in
      absurd (enqueue-refused self e w w' x v asset exit_id place done)
  queue-perform-IsFunded (QueueOperations.dequeue asset exit_id) h =
      absurd (dequeue-refused self e w w' x v asset exit_id h)
