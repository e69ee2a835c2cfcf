-- ===== src/Queue/Calls.antt =====
-- What the calls of contracts/fifo_queue/src/lib.rs do to the lines, and that they keep them orderly.
use stellar_exit_contracts.Queue.{enqueue, dequeue}
use stellar_exit_contracts.Queue.Line.{
  erase, distinct, moved_up, without-eq-erase, position-push, position-erase, position-erase_self,
  length-erase, contains-position, distinct-push, distinct-erase,
}
use stellar_exit_contracts.State.Queue.{max_queue_depth}
use stellar_exit_contracts.State.Events.{Event, QueueEvent}
use stellar_exit_contracts.Host.Chain.{Address, Env, Chain, World}
use stellar_exit_contracts.Host.Call.{ok}
use stellar_exit_contracts.Prelude.{
  ℕ, ◌+◌, ◌≤◌, ◌<◌, ◌≡◌, ◌≢◌, true, false, some, none, List, [], ◌∷◌, ◌++◌, inl, inr, arith,
  unwrap_or, Option-cases, ==_refl,
}
use stellar_exit_contracts.Prelude.Lists.{length, contains, position, length-push}
use stellar_exit_contracts.Prelude.Dict.{update}

module _ {c : Chain} where
  -- The line of an asset, which is empty before anyone enters it.
  abbrev pub line : World c → Address → List ℕ
  line w asset = unwrap_or (w.queue.queues asset) []

  -- Every line is within its bound, and nobody stands in it twice.
  pub record IsOrderly (w : World c) : Type 0 where
    pub bounded : (asset : Address) → length (line w asset) ≤ max_queue_depth
    pub unrepeated : (asset : Address) → distinct (line w asset) ≡ true

  pub record Entered (e : Env) (asset : Address) (exit_id place : ℕ) (w w' : World c) : Type 0 where
    pub at_back : place ≡ length (line w asset)
    pub new : contains exit_id (line w asset) ≡ false
    pub room : length (line w asset) < max_queue_depth
    pub result : w' ≡ record w {
      queue = record (w.queue) {
        queues = update asset (some (line w asset ++ exit_id ∷ [])) w.queue.queues;
      };
      events =
          Event.queue
            (QueueEvent.queued asset exit_id (length (line w asset)) (length (line w asset) + 1))
          ∷ w.events;
    }

  pub enqueue-Entered :
      (e : Env) (asset : Address) (exit_id place : ℕ) (w w' : World c)
      → enqueue e asset exit_id w ≡ ok (place, w')
      → Entered e asset exit_id place w w'
  unfolding enqueue
  enqueue-Entered e asset exit_id place w w' h = ground (arith, length-push (line w asset) exit_id)

  pub record Left (e : Env) (asset : Address) (exit_id : ℕ) (w w' : World c) : Type 0 where
    pub index : ℕ
    pub found : position exit_id (line w asset) ≡ some index
    pub lines : w'.queue ≡ record (w.queue) {
      queues = update asset (some (erase exit_id (line w asset))) w.queue.queues;
    }
    pub auction_kept : w'.auction ≡ w.auction
    pub router_kept : w'.router ≡ w.router
    pub vault_kept : w'.vault ≡ w.vault
    pub ledger_kept : w'.ledger ≡ w.ledger

  pub dequeue-Left :
      (e : Env) (asset : Address) (exit_id : ℕ) (w w' : World c)
      → dequeue e asset exit_id w ≡ ok (tt, w')
      → Left e asset exit_id w w'
  unfolding dequeue
  dequeue-Left e asset exit_id w w' h = elim (Option-cases (position exit_id (line w asset))) [
    | inl missing ↦ absurd (ground arith)
    | inr (index, found) ↦ record {
      index = index;
      found = found;
      lines = ground (arith, without-eq-erase exit_id 0 index (line w asset));
      auction_kept = ground arith;
      router_kept = ground arith;
      vault_kept = ground arith;
      ledger_kept = ground arith;
    }
  ]

  -- An exit enters an orderly line at the back, and the line stays orderly.
  pub enqueue-IsOrderly :
      (e : Env) (asset : Address) (exit_id place : ℕ) (w w' : World c)
      → IsOrderly w
      → enqueue e asset exit_id w ≡ ok (place, w')
      → IsOrderly w'
  enqueue-IsOrderly e asset exit_id place w w' o h =
      let f = enqueue-Entered e asset exit_id place w w' h in
      rw (f.result) (record {
        bounded =
            λ other. ground (arith, o.bounded other, f.room, length-push (line w asset) exit_id);
        unrepeated = λ other. ground (
          arith,
          o.unrepeated other,
          o.unrepeated asset,
          distinct-push exit_id (line w asset),
          f.new,
        );
      })

  pub dequeue-IsOrderly :
      (e : Env) (asset : Address) (exit_id : ℕ) (w w' : World c)
      → IsOrderly w
      → dequeue e asset exit_id w ≡ ok (tt, w')
      → IsOrderly w'
  dequeue-IsOrderly e asset exit_id w w' o h =
      let f = dequeue-Left e asset exit_id w w' h in
      record {
        bounded = λ other. rw (f.lines) (
            ground (
              arith,
              o.bounded other,
              o.bounded asset,
              length-erase exit_id f.index (line w asset),
              f.found,
            ));
        unrepeated = λ other. rw (f.lines) (
            ground (
              arith,
              o.unrepeated other,
              o.unrepeated asset,
              distinct-erase exit_id (line w asset),
            ));
      }

  -- An exit that enters gets the place behind everyone: the answer is the depth before it, everyone
  -- else stays where it was, and the lines of other assets do not move.
  pub enqueue_positions :
      (e : Env) (asset : Address) (exit_id place : ℕ) (w w' : World c)
      → enqueue e asset exit_id w ≡ ok (place, w')
      → (place ≡ length (line w asset))
        × (position exit_id (line w' asset) ≡ some place)
        × ((b : ℕ) → b ≢ exit_id → position b (line w' asset) ≡ position b (line w asset))
        × ((other : Address) → other ≢ asset → line w' other ≡ line w other)
  enqueue_positions e asset exit_id place w w' h =
      let f = enqueue-Entered e asset exit_id place w w' h in
      (
        f.at_back,
        rw (f.result) (
            ground (
              arith,
              f.at_back,
              f.new,
              contains-position exit_id (line w asset),
              position-push exit_id exit_id (line w asset),
            )),
        λ b other. rw (f.result) (ground (arith, position-push b exit_id (line w asset))),
        λ b other. rw (f.result) (ground arith),
      )

  -- An exit that leaves an orderly line stands in it no more, everyone behind it moves up by one and
  -- nobody else moves, also in the lines of other assets.
  pub dequeue_positions :
      (e : Env) (asset : Address) (exit_id : ℕ) (w w' : World c)
      → IsOrderly w
      → dequeue e asset exit_id w ≡ ok (tt, w')
      → (position exit_id (line w' asset) ≡ none)
        × ((b : ℕ)
            → b ≢ exit_id
            → position b (line w' asset)
              ≡ moved_up (position exit_id (line w asset)) (position b (line w asset)))
        × ((other : Address) → other ≢ asset → line w' other ≡ line w other)
  dequeue_positions e asset exit_id w w' o h =
      let f = dequeue-Left e asset exit_id w w' h in
      (
        rw (f.lines) (
            ground (
              arith,
              ==_refl asset,
              position-erase_self exit_id (line w asset) (o.unrepeated asset),
            )),
        λ b other.
            rw (f.lines)
              (ground (arith, ==_refl asset, position-erase exit_id b (line w asset) other)),
        λ b other. rw (f.lines) (ground arith),
      )
