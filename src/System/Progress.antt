-- ===== src/System/Progress.antt =====
-- Calls of the vault, the queue and the router (contracts/) that are sure to succeed, and when.
use stellar_exit_contracts.Auction.Pledges.{pledge, pledged}
use stellar_exit_contracts.Queue
use stellar_exit_contracts.Queue.Calls.{line}
use stellar_exit_contracts.Queue.Line.{contains-position}
use stellar_exit_contracts.Router
use stellar_exit_contracts.Vault.Hooks
use stellar_exit_contracts.Vault.Effects.{IsAuthorized, Backing}
use stellar_exit_contracts.State.Auction.{Exit}
use stellar_exit_contracts.State.Router.{Escrow}
use stellar_exit_contracts.State.Router as RouterState
use stellar_exit_contracts.State.Queue as QueueState
use stellar_exit_contracts.State.Events.{Event, QueueEvent, RouterEvent, VaultEvent}
use stellar_exit_contracts.Host.Chain.{Address, Env, Chain, World, enter}
use stellar_exit_contracts.Host.Call.{ok}
use stellar_exit_contracts.Prelude.{
  [], ◌∷◌, ℕ, ◌≤◌, ◌≡◌, refl, inl, inr, true, some, arith, Option-cases,
}
use stellar_exit_contracts.Prelude.Int.{
  fits_zero, ℤ, pos, ◌-ℤ◌, ◌≤ℤ◌, ◌<ℤ◌, fits, fits_between, -ℤ_parts,
}
use stellar_exit_contracts.Prelude.Dict.{Dict, lookup, total, insert, remove, update, update₂}
use stellar_exit_contracts.Prelude.Lists.{position, contains, without, length}

-- One bid is a part of the sum.
pub pledge-le-pledged :
    (node : Address) (i : ℕ) (x : Exit) (exits : Dict Exit)
    → lookup i exits ≡ some x
    → pledge node x ≤ pledged node exits
unfolding lookup total
pledge-le-pledged node i x [] h = ground arith
pledge-le-pledged node i x ((j, y) ∷ exits) h = ground (arith, pledge-le-pledged node i x exits)

module _ {c : Chain} where
  -- The vault after it has let a bid go.
  unfoldable pub released :
      (node asset : Address) (amount : ℤ) (w : World c) → Backing node asset w → World c
  released node asset amount w b = record w {
    vault = record (w.vault) {
      nodes =
          insert node (record (b.state) { committed = b.state.committed -ℤ amount }) w.vault.nodes;
      appetites =
          update₂ node asset
            (some (record (b.appetite) { exposure = b.appetite.exposure -ℤ amount }))
            w.vault.appetites;
    };
    events = Event.vault (VaultEvent.released node asset amount) ∷ w.events;
  }

  -- The conditions on which it does.
  pub release_succeeds :
      (e : Env) (node asset auction : Address) (amount : ℤ) (w : World c) (b : Backing node asset w)
      → b.config.auction ≡ some auction
      → IsAuthorized e auction
      → pos 0 <ℤ amount
      → amount ≤ℤ b.state.committed
      → amount ≤ℤ b.appetite.exposure
      → fits b.state.committed ≡ true
      → fits b.appetite.exposure ≡ true
      → Hooks.release e node asset amount w ≡ ok (tt, released node asset amount w b)
  unfolding Hooks.release released
  release_succeeds e node asset auction amount w b wired authorized positive covered exposed fit
        fit' =
      ground (
        arith,
        b.configured,
        b.known,
        b.declared,
        wired,
        fits_between (pos 0) b.state.committed (b.state.committed -ℤ amount),
        fits_between (pos 0) b.appetite.exposure (b.appetite.exposure -ℤ amount),
        -ℤ_parts b.state.committed amount,
        -ℤ_parts b.appetite.exposure amount,
        fits_zero,
      )

  -- An exit that stands in its line can leave it.
  pub dequeue_succeeds :
      (e : Env) (asset exit_id auction : ℕ) (w : World c) (config : QueueState.Config)
      → w.queue.config ≡ some config
      → config.auction ≡ some auction
      → IsAuthorized e auction
      → contains exit_id (line w asset) ≡ true
      → (w' : World c) × (Queue.dequeue e asset exit_id w ≡ ok (tt, w'))
        × (w'.router ≡ w.router)
        × (w'.ledger ≡ w.ledger)
  unfolding Queue.dequeue
  dequeue_succeeds e asset exit_id auction w config configured wired authorized there =
      elim (Option-cases (position exit_id (line w asset))) [
        | inl missing ↦
            absurd (ground (arith, contains-position exit_id (line w asset), missing, there))
        | inr (index, found) ↦ (
          record w {
            queue = record (w.queue) {
              queues = update asset (some (without index 0 (line w asset))) w.queue.queues;
            };
            events =
                Event.queue
                  (QueueEvent.dequeued asset exit_id (length (without index 0 (line w asset))))
                ∷ w.events;
          },
          ground (arith, configured, wired, found),
          refl,
          refl,
        )
      ]

  -- What the router holds for an exit can be given back.
  pub refund_succeeds :
      (e : Env) (exit_id auction : ℕ) (w : World c) (config : RouterState.Config) (held : Escrow)
      (l : Chain.Ledger c)
      → w.router.config ≡ some config
      → config.auction ≡ some auction
      → IsAuthorized e auction
      → lookup exit_id w.router.escrows ≡ some held
      → Chain.transfer c (enter e held.asset) held.asset e.current held.seller held.amount w.ledger
        ≡ some l
      → Router.refund e exit_id w
        ≡ ok (
          tt,
          record w {
            router = record (w.router) { escrows = remove exit_id w.router.escrows };
            ledger = l;
            events =
                Event.router (RouterEvent.refunded held.asset exit_id held.seller held.amount)
                ∷ w.events;
          },
        )
  unfolding Router.refund
  refund_succeeds e exit_id auction w config held l configured wired authorized stored moved =
      ground (arith, configured, wired, stored, moved)
