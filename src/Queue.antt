-- ===== src/Queue.antt =====
-- contracts/fifo_queue/src/lib.rs: the public waiting line of each asset.
pub mod Line
pub mod Operations
pub mod Order
pub mod Calls
use stellar_exit_contracts.State.Queue.{Config, max_queue_depth}
use stellar_exit_contracts.State.Errors.{Error, QueueError}
use stellar_exit_contracts.State.Events.{Event, QueueEvent}
use stellar_exit_contracts.Host.Chain.{Address, Env, Chain}
use stellar_exit_contracts.Host.Call.{
  Call, ◌>>=◌, ◌>>◌, fail_if, ok_or, gets, modify, pure, require_auth, publish,
}
use stellar_exit_contracts.Prelude.{
  ℕ, ◌-◌, Option, some, none, List, [], ◌∷◌, ◌++◌, leb, is_some, unwrap_or,
}
use stellar_exit_contracts.Prelude.Lists.{length, first, contains, position, without}
use stellar_exit_contracts.Prelude.Dict.{update}

module _ {c : Chain} where
  abbrev pub read_config : Call c Config
  read_config w = ok_or w.queue.config (Error.queue QueueError.not_initialized) w

  abbrev pub write_config : Config → Call c (Unit {0})
  write_config config = modify (λ w. record w { queue = record (w.queue) { config = some config } })

  abbrev pub require_auction : Env → Call c (Unit {0})
  require_auction e = do
    config ← read_config
    auction ← ok_or config.auction (Error.queue QueueError.not_auction)
    require_auth e auction

  abbrev pub read_queue : Address → Call c (List ℕ)
  read_queue asset = gets (λ w. unwrap_or (w.queue.queues asset) [])

  abbrev pub write_queue : Address → List ℕ → Call c (Unit {0})
  write_queue asset queue = modify (λ w. record w {
    queue = record (w.queue) { queues = update asset (some queue) w.queue.queues };
  })

  unfoldable pub initialize : Env → Address → Call c (Unit {0})
  initialize e admin = do
    found ← gets (λ w. is_some w.queue.config)
    fail_if found (Error.queue QueueError.already_initialized)
    write_config (record { admin = admin; auction = none })

  unfoldable pub set_auction : Env → Address → Call c (Unit {0})
  set_auction e auction = do
    config ← read_config
    require_auth e config.admin
    write_config (record config { auction = some auction })

  -- The answer is the position, 0 for the next.
  unfoldable pub enqueue : Env → Address → ℕ → Call c ℕ
  enqueue e asset exit_id = do
    require_auction e
    queue ← read_queue asset
    fail_if (leb max_queue_depth (length queue)) (Error.queue QueueError.queue_full)
    fail_if (contains exit_id queue) (Error.queue QueueError.already_queued)
    let longer = queue ++ exit_id ∷ []
    write_queue asset longer
    publish (Event.queue (QueueEvent.queued asset exit_id (length longer - 1) (length longer)))
    pure (length longer - 1)

  unfoldable pub dequeue : Env → Address → ℕ → Call c (Unit {0})
  dequeue e asset exit_id = do
    require_auction e
    queue ← read_queue asset
    index ← ok_or (position exit_id queue) (Error.queue QueueError.not_queued)
    let next = without index 0 queue
    write_queue asset next
    publish (Event.queue (QueueEvent.dequeued asset exit_id (length next)))

  unfoldable pub position_of : Address → ℕ → Call c (Option ℕ)
  position_of asset exit_id = do queue ← read_queue asset; pure (position exit_id queue)

  unfoldable pub head : Address → Call c (Option ℕ)
  head asset = do queue ← read_queue asset; pure (first queue)

  unfoldable pub depth : Address → Call c ℕ
  depth asset = do queue ← read_queue asset; pure (length queue)

  unfoldable pub list : Address → Call c (List ℕ)
  list asset = read_queue asset

  unfoldable pub get_config : Call c Config
  get_config = read_config
