-- ===== src/System/Bidder.antt =====
-- What a live exit of contracts/exit_auction/src/lib.rs can count on: its bidder has the capital, the
-- contracts let the auction in, and it can leave the line.
use stellar_exit_contracts.System.Progress.{pledge-le-pledged, dequeue_succeeds}
use stellar_exit_contracts.System.{IsWired, IsConsistent}
use stellar_exit_contracts.Auction.Storage.{is_live, is_queued, dequeue_if_queued, queue_dequeue}
use stellar_exit_contracts.Queue
use stellar_exit_contracts.Queue.Calls.{line}
use stellar_exit_contracts.Vault.Hooks.{reserved}
use stellar_exit_contracts.Vault.Effects.{IsAuthorized}
use stellar_exit_contracts.Vault.Solvency.{AccountIsSound, AccountsAreSound}
use stellar_exit_contracts.State.Auction.{Exit}
use stellar_exit_contracts.State.Vault.{Node}
use stellar_exit_contracts.State.Queue as QueueState
use stellar_exit_contracts.Host.Chain.{Address, Env, Chain, World, enter}
use stellar_exit_contracts.Host.Call.{ok, call_contract-reached}
use stellar_exit_contracts.Prelude.{
  [], ℕ, ◌≡◌, refl, sym, subst, ap, unwrap_or, ◌∙◌, inl, inr, Bool, true, false, some, arith,
  Option-cases, ==_refl,
}
use stellar_exit_contracts.Prelude.Int.{pos, ◌≤ℤ◌, ◌<ℤ◌, fits, fits_of_nonneg, +ℤ_parts}
use stellar_exit_contracts.Prelude.Dict.{lookup}
use stellar_exit_contracts.Prelude.Lists.{contains}

module _ {c : Chain} (self : Address) (e : Env) (w : World c) (v : IsWired self w)
    (k : IsConsistent w) (own : e.current ≡ self) (i : ℕ) (x : Exit)
    (stored : lookup i w.auction.exits ≡ some x) (live : is_live x.status ≡ true) where
  -- A bidder has an account.
  pub bidder_account :
      (node : Address)
      → x.best_node ≡ some node
      → pos 0 <ℤ x.best_usdc
      → (n : Node) × (lookup node w.vault.nodes ≡ some n) × (x.best_usdc ≤ℤ n.committed)
  bidder_account node bidder positive =
      let part = pledge-le-pledged node i x w.auction.exits stored in
      let sum = k.pledges node in
      elim (Option-cases (lookup node w.vault.nodes)) [
        | inl unknown ↦
            absurd (ground (arith, part, sum, unknown, bidder, live, positive, ==_refl node))
        | inr (n, known) ↦
            (n, known, ground (arith, part, sum, known, bidder, live, positive, ==_refl node))
      ]

  pub committed_fits :
      AccountsAreSound w.vault.nodes w.vault.withdrawals
      → (node : Address) (n : Node) → lookup node w.vault.nodes ≡ some n
      → fits n.committed ≡ true
  committed_fits accounts node n known =
      let sound = subst (λ o. AccountIsSound o (w.vault.withdrawals node)) known (accounts node) in
      fits_of_nonneg n.committed sound.committed_nonneg (
        ground (
          arith,
          sound.covered,
          sound.bounded,
          sound.committed_nonneg,
          sound.reserve_nonneg,
          +ℤ_parts n.committed (reserved (w.vault.withdrawals node)),
        ))

  pub invoked : (callee : Address) → IsAuthorized (enter e callee) self
  invoked callee = ground (arith, own, ==_refl self)

  -- A bidder's offer is positive.
  pub offered : (node : Address) → x.best_node ≡ some node → pos 0 <ℤ x.best_usdc
  offered node bidder = elim ((k.sound.fair i x stored).bid) [
    | inl (nobody, _) ↦ absurd (ground (arith, nobody, bidder))
    | inr (_, _, positive) ↦ positive
  ]

  pub leave_line_succeeds :
      (queued : Bool) (u : World c)
      → is_queued x.status ≡ queued
      → u.queue ≡ w.queue
      → (t : World c) × (dequeue_if_queued queued e v.auction x u ≡ ok (tt, t))
        × (t.router ≡ u.router)
        × (t.ledger ≡ u.ledger)
  unfolding queue_dequeue
  leave_line_succeeds false u queued same = (u, refl, refl, refl)
  leave_line_succeeds true u queued same =
      let there = k.lined.waits i x stored queued in
      let (t, done, router, ledger) =
        dequeue_succeeds (enter e v.auction.queue) x.asset x.id self u v.queue
          (ap (λ (q : QueueState.Storage). q.config) same ∙ v.queue_configured) v.queue_auction
          (invoked v.auction.queue)
          (ap (λ (q : QueueState.Storage). contains x.id (unwrap_or (q.queues x.asset) [])) same
            ∙ subst (λ a. contains a (line w x.asset) ≡ true)
                (sym ((k.sound.fair i x stored).own_id)) there) in
      (
        t,
        call_contract-reached e (Chain.queue_address c) v.auction.queue
              (λ inner. Queue.dequeue inner x.asset x.id) u v.auction_queue
            ∙ done,
        router,
        ledger,
      )
