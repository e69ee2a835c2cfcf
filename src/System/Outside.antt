-- ===== src/System/Outside.antt =====
-- The calls of contracts/settlement_router/src/lib.rs and contracts/fifo_queue/src/lib.rs that come from
-- outside: only the administrator's are let in.
use stellar_exit_contracts.System.{IsWired, IsExternal}
use stellar_exit_contracts.System.Quiet.{IsQuiet}
use stellar_exit_contracts.Router
use stellar_exit_contracts.Router.Operations as RouterOperations
use stellar_exit_contracts.Router.Effects.{escrow-Escrowed, refund-Refunded}
use stellar_exit_contracts.Router.Settlement.{settle-Settled}
use stellar_exit_contracts.Queue
use stellar_exit_contracts.Queue.Operations as QueueOperations
use stellar_exit_contracts.Queue.Operations.{enqueue_answer}
use stellar_exit_contracts.Host.Chain.{Address, Env, Chain, World}
use stellar_exit_contracts.Host.Call.{ok}
use stellar_exit_contracts.Prelude.{ℕ, ◌≡◌, arith}
use stellar_exit_contracts.Prelude.Int.{ℤ}

module _ {c : Chain} (self : Address) (e : Env) (w w' : World c)
    (x : IsExternal self (Chain.router_address c) e) (v : IsWired self w) where
  pub router-initialize-refused :
      (admin vault usdc treasury : Address) (bps : ℕ)
      → ¬ (Router.initialize e admin vault usdc treasury bps w ≡ ok (tt, w'))
  unfolding Router.initialize
  router-initialize-refused admin vault usdc treasury bps h = ground (arith, v.router_configured)

  set_auction-IsQuiet : (a : Address) → Router.set_auction e a w ≡ ok (tt, w') → IsQuiet w w'
  unfolding Router.set_auction
  set_auction-IsQuiet a h = ground arith

  set_admin-IsQuiet : (a : Address) → Router.set_admin e a w ≡ ok (tt, w') → IsQuiet w w'
  unfolding Router.set_admin
  set_admin-IsQuiet a h = ground arith

  set_treasury-IsQuiet : (a : Address) → Router.set_treasury e a w ≡ ok (tt, w') → IsQuiet w w'
  unfolding Router.set_treasury
  set_treasury-IsQuiet a h = ground arith

  set_protocol_fee_bps-IsQuiet :
      (bps : ℕ) → Router.set_protocol_fee_bps e bps w ≡ ok (tt, w') → IsQuiet w w'
  unfolding Router.set_protocol_fee_bps
  set_protocol_fee_bps-IsQuiet bps h = ground arith

  pub escrow-refused :
      (exit_id seller asset : Address) (amount : ℤ)
      → ¬ (Router.escrow e exit_id seller asset amount w ≡ ok (tt, w'))
  escrow-refused exit_id seller asset amount h =
      let f = escrow-Escrowed e exit_id seller asset amount w w' h in
      ground (
        arith, f.configured, f.wired, f.authorized, v.router_configured, v.router_auction,
        x.uninvoked, x.auction_unsigned,
      )

  pub settle-refused :
      (exit_id node : Address) (token_amount usdc_amount : ℤ)
      → ¬ (Router.settle e exit_id node token_amount usdc_amount w ≡ ok (tt, w'))
  settle-refused exit_id node token_amount usdc_amount h =
      let f = settle-Settled e node token_amount usdc_amount exit_id w w' h in
      ground (
        arith, f.configured, f.wired, f.authorized, v.router_configured, v.router_auction,
        x.uninvoked, x.auction_unsigned,
      )

  pub refund-refused : (exit_id : ℕ) → ¬ (Router.refund e exit_id w ≡ ok (tt, w'))
  refund-refused exit_id h =
      let f = refund-Refunded e exit_id w w' h in
      ground (
        arith, f.configured, f.wired, f.authorized, v.router_configured, v.router_auction,
        x.uninvoked, x.auction_unsigned,
      )

  pub queue-initialize-refused : (admin : Address) → ¬ (Queue.initialize e admin w ≡ ok (tt, w'))
  unfolding Queue.initialize
  queue-initialize-refused admin h = ground (arith, v.queue_configured)

  queue-set_auction-IsQuiet : (a : Address) → Queue.set_auction e a w ≡ ok (tt, w') → IsQuiet w w'
  unfolding Queue.set_auction
  queue-set_auction-IsQuiet a h = ground arith

  pub enqueue-refused :
      (asset exit_id place : ℕ) → ¬ (Queue.enqueue e asset exit_id w ≡ ok (place, w'))
  unfolding Queue.enqueue
  enqueue-refused asset exit_id place h =
      ground (arith, v.queue_configured, v.queue_auction, x.uninvoked, x.auction_unsigned)

  pub dequeue-refused : (asset exit_id : ℕ) → ¬ (Queue.dequeue e asset exit_id w ≡ ok (tt, w'))
  unfolding Queue.dequeue
  dequeue-refused asset exit_id h =
      ground (arith, v.queue_configured, v.queue_auction, x.uninvoked, x.auction_unsigned)

-- From outside, the router's calls are quiet, and so are the queue's.
pub router-perform-IsQuiet :
    {c : Chain} (self : Address) (op : RouterOperations.Operation) (e : Env) (w w' : World c)
    → IsExternal self (Chain.router_address c) e
    → IsWired self w
    → RouterOperations.perform op e w ≡ ok (tt, w')
    → IsQuiet w w'
unfolding RouterOperations.perform
router-perform-IsQuiet self (RouterOperations.initialize admin vault usdc treasury bps) e w w' x v
      h =
    absurd (router-initialize-refused self e w w' x v admin vault usdc treasury bps h)
router-perform-IsQuiet self (RouterOperations.set_auction a) e w w' x v h =
    set_auction-IsQuiet self e w w' x v a h
router-perform-IsQuiet self (RouterOperations.set_admin a) e w w' x v h =
    set_admin-IsQuiet self e w w' x v a h
router-perform-IsQuiet self (RouterOperations.set_treasury a) e w w' x v h =
    set_treasury-IsQuiet self e w w' x v a h
router-perform-IsQuiet self (RouterOperations.set_protocol_fee_bps bps) e w w' x v h =
    set_protocol_fee_bps-IsQuiet self e w w' x v bps h
router-perform-IsQuiet self (RouterOperations.escrow exit_id seller asset amount) e w w' x v h =
    absurd (escrow-refused self e w w' x v exit_id seller asset amount h)
router-perform-IsQuiet self (RouterOperations.settle exit_id node token_amount usdc_amount) e w w' x
      v h =
    absurd (settle-refused self e w w' x v exit_id node token_amount usdc_amount h)
router-perform-IsQuiet self (RouterOperations.refund exit_id) e w w' x v h =
    absurd (refund-refused self e w w' x v exit_id h)

pub queue-perform-IsQuiet :
    {c : Chain} (self : Address) (op : QueueOperations.Operation) (e : Env) (w w' : World c)
    → IsExternal self (Chain.router_address c) e
    → IsWired self w
    → QueueOperations.perform op e w ≡ ok (tt, w')
    → IsQuiet w w'
unfolding QueueOperations.perform
queue-perform-IsQuiet self (QueueOperations.initialize admin) e w w' x v h =
    absurd (queue-initialize-refused self e w w' x v admin h)
queue-perform-IsQuiet self (QueueOperations.set_auction a) e w w' x v h =
    queue-set_auction-IsQuiet self e w w' x v a h
queue-perform-IsQuiet self (QueueOperations.enqueue asset exit_id) e w w' x v h =
    let (place, done) = enqueue_answer e w w' asset exit_id h in
    absurd (enqueue-refused self e w w' x v asset exit_id place done)
queue-perform-IsQuiet self (QueueOperations.dequeue asset exit_id) e w w' x v h =
    absurd (dequeue-refused self e w w' x v asset exit_id h)
