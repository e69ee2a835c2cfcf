-- ===== src/Queue/Operations.antt =====
-- The calls of contracts/fifo_queue/src/lib.rs that change its state, as one type.
use stellar_exit_contracts.Queue
use stellar_exit_contracts.Queue.Calls.{IsOrderly, enqueue-IsOrderly, dequeue-IsOrderly}
use stellar_exit_contracts.Host.Chain.{Address, Env, Chain, World}
use stellar_exit_contracts.Host.Call.{>>=-eq-ok, Call, ok, ◌>>=◌, pure}
use stellar_exit_contracts.Prelude.{ℕ, ◌≡◌, arith, ◌∙◌}

-- The calls of the queue that change its state.
pub data Operation : Type 0 where
  initialize set_auction : Address → Operation
  enqueue dequeue : Address → ℕ → Operation

module _ {c : Chain} where
  unfoldable pub perform : Operation → Env → Call c (Unit {0})
  perform (Operation.initialize admin) e = Queue.initialize e admin
  perform (Operation.set_auction auction) e = Queue.set_auction e auction
  perform (Operation.enqueue asset exit_id) e = Queue.enqueue e asset exit_id >>= λ _. pure tt
  perform (Operation.dequeue asset exit_id) e = Queue.dequeue e asset exit_id

module _ {c : Chain} (e : Env) (w w' : World c) where
  pub initialize_lines :
      (admin : Address)
      → Queue.initialize e admin w ≡ ok (tt, w')
      → w'.queue.queues ≡ w.queue.queues
  unfolding Queue.initialize
  initialize_lines admin h = ground arith

  pub set_auction_lines :
      (auction : Address)
      → Queue.set_auction e auction w ≡ ok (tt, w')
      → w'.queue.queues ≡ w.queue.queues
  unfolding Queue.set_auction
  set_auction_lines auction h = ground arith

  same_lines-IsOrderly : w'.queue.queues ≡ w.queue.queues → IsOrderly w → IsOrderly w'
  same_lines-IsOrderly same o = record {
    bounded = λ t. rw same (o.bounded t);
    unrepeated = λ t. rw same (o.unrepeated t);
  }

  -- An enqueue, with its answer.
  pub enqueue_answer :
      (asset : Address) (x : ℕ)
      → perform (Operation.enqueue asset x) e w ≡ ok (tt, w')
      → (place : ℕ) × (Queue.enqueue e asset x w ≡ ok (place, w'))
  unfolding perform
  enqueue_answer asset x h =
      let (place, v, done, rest) = >>=-eq-ok (Queue.enqueue e asset x) (λ _. pure tt) w h in
      (place, done ∙ ground arith)

  -- Every call of the queue that succeeds keeps every line within its bound and free of
  -- repetitions.
  pub perform-IsOrderly :
      (op : Operation) → IsOrderly w → perform op e w ≡ ok (tt, w') → IsOrderly w'
  unfolding perform
  perform-IsOrderly (Operation.initialize admin) o h =
      same_lines-IsOrderly (initialize_lines admin h) o
  perform-IsOrderly (Operation.set_auction auction) o h =
      same_lines-IsOrderly (set_auction_lines auction h) o
  perform-IsOrderly (Operation.enqueue asset x) o h =
      let (place, done) = enqueue_answer asset x h in enqueue-IsOrderly e asset x place w w' o done
  perform-IsOrderly (Operation.dequeue asset x) o h = dequeue-IsOrderly e asset x w w' o h
