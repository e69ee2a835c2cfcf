-- ===== src/System/Accepting.antt =====
-- A seller sells (contracts/exit_auction/src/lib.rs, `accept_bid`): the calls that it takes all
-- succeed.
use stellar_exit_contracts.System.{IsWired, IsConsistent}
use stellar_exit_contracts.System.Funds.{IsFunded}
use stellar_exit_contracts.Router.Operations.{FeeIsCapped}
use stellar_exit_contracts.System.Bidder.{
  bidder_account, committed_fits, invoked, offered, leave_line_succeeds,
}
use stellar_exit_contracts.Auction.Storage.{
  is_live, is_queued, fill, at_head, queue_head, router_settle,
}
use stellar_exit_contracts.Auction.Seller.{accept_bid}
use stellar_exit_contracts.Auction.Effects.Closing.{is_in_turn}
use stellar_exit_contracts.Auction.Effects.Filling.{stored_exit}
use stellar_exit_contracts.Queue
use stellar_exit_contracts.Router
use stellar_exit_contracts.Router.Progress.{CanPay}
use stellar_exit_contracts.Router.Settling.{Delivers, settle_succeeds}
use stellar_exit_contracts.Vault.Hooks.{reserved}
use stellar_exit_contracts.Vault.Effects.{IsAuthorized}
use stellar_exit_contracts.Vault.Solvency.{AccountIsSound, AccountsAreSound}
use stellar_exit_contracts.State.Auction.{Exit, Status}
use stellar_exit_contracts.State.Vault.{Node, Appetite}
use stellar_exit_contracts.State.Router.{Escrow, max_protocol_fee_bps}
use stellar_exit_contracts.Host.Chain.{Address, Env, Chain, World, enter}
use stellar_exit_contracts.Host.Call.{ok, call_contract-reached}
use stellar_exit_contracts.Prelude.{
  ℕ, ◌≤◌, ◌≡◌, refl, sym, subst, ap, ◌∙◌, true, some, arith, is_some-eq-some,
}
use stellar_exit_contracts.Prelude.Int.{
  pos, ◌+ℤ◌, ◌*ℤ◌, ◌≤ℤ◌, fits, fits_zero, fits_between, fits_of_nonneg, +ℤ_parts,
}
use stellar_exit_contracts.Prelude.Dict.{lookup, insert, lookup-insert_self}

-- The escrow record of a live exit.
abbrev pub record_of : Exit → Escrow
record_of x = record { seller = x.seller; asset = x.asset; amount = x.amount }

module _ {c : Chain} (self : Address) (e : Env) (w : World c) (v : IsWired self w)
    (k : IsConsistent w) (own : e.current ≡ self) (i : ℕ) (x : Exit)
    (stored : lookup i w.auction.exits ≡ some x) (live : is_live x.status ≡ true) where
  -- The queue answers, and nobody stands before the exit.
  at_head_succeeds : is_in_turn x w ≡ true → at_head e x w ≡ ok (true, w)
  unfolding at_head queue_head Queue.head
  at_head_succeeds turn =
      let heard =
        call_contract-reached e (Chain.queue_address c) v.auction.queue
          (λ inner. Queue.head x.asset) w v.auction_queue in
      ground (arith, v.auction_configured, heard, turn)

  -- The bidder's account covers its bid.
  bidder-CanPay :
      (node : Address) (n : Node)
      → AccountsAreSound w.vault.nodes w.vault.withdrawals
      → x.best_node ≡ some node
      → lookup node w.vault.nodes ≡ some n
      → fits (n.filled +ℤ x.best_usdc) ≡ true
      → CanPay n x.best_usdc
  bidder-CanPay node n accounts bidder known filled =
      let positive = offered self e w v k own i x stored live node bidder in
      let (m, known', covered) =
        bidder_account self e w v k own i x stored live node bidder positive in
      let sound = subst (λ o. AccountIsSound o (w.vault.withdrawals node)) known (accounts node) in
      let covered' : x.best_usdc ≤ℤ n.committed = ground (arith, known, known', covered) in
      let sum = +ℤ_parts n.committed (reserved (w.vault.withdrawals node)) in
      record {
        covered = covered';
        held = omega (arith, sum, sound.covered, sound.reserve_nonneg, covered');
        filled_nonneg = sound.filled_nonneg;
        committed_fits = committed_fits self e w v k own i x stored live accounts node n known;
        deposited_fits =
            fits_of_nonneg n.deposited
              (omega (arith, sum, sound.covered, sound.reserve_nonneg, sound.committed_nonneg))
              sound.bounded;
        filled_fits = filled;
      }

  -- The seller of a live exit who signs sells it to the standing bidder, in a consistent, funded and
  -- wired system, if the bid meets the reserve, nobody stands ahead in the line, the size, the fee's
  -- product and what the node has filled are in the range of `i128`, and the tokens make the transfers.
  pub accept_bid_succeeds :
      (node : Address) (n : Node)
      → IsFunded w
      → IsAuthorized e x.seller
      → x.best_node ≡ some node
      → x.min_accept_usdc ≤ℤ x.best_usdc
      → is_in_turn x w ≡ true
      → lookup node w.vault.nodes ≡ some n
      → fits x.amount ≡ true
      → fits (x.best_usdc *ℤ pos v.router.protocol_fee_bps) ≡ true
      → fits (n.filled +ℤ x.best_usdc) ≡ true
      → (d : Delivers c
          (enter e v.auction.router)
          v.router
          v.vault.usdc
          node
          (record_of x)
          x.amount
          x.best_usdc
          w.ledger)
      → (w' : World c) × (accept_bid e i w ≡ ok (tt, w'))
        × (w'.ledger ≡ d.after_node)
        × (lookup i w'.auction.exits ≡ some (record x { status = Status.settled }))
  unfolding accept_bid fill router_settle
  accept_bid_succeeds node n m signed bidder met turn known amount_fits scaled filled d =
      let fair = k.sound.fair i x stored in
      let accounts = m.solvent.accounts in
      let (terms, declared) : (a : Appetite) × (w.vault.appetites node x.asset ≡ some a) =
        is_some-eq-some _ (k.backed i x node stored bidder) in
      let able = bidder-CanPay node n accounts bidder known filled in
      let positive = offered self e w v k own i x stored live node bidder in
      let best_fits =
        fits_between (pos 0) n.committed x.best_usdc fits_zero able.committed_fits
          (omega (arith, positive)) able.covered in
      let capped : v.router.protocol_fee_bps ≤ max_protocol_fee_bps =
        subst FeeIsCapped v.router_configured m.secure.fee in
      let (t, settled, auction, queue, ledger) =
        settle_succeeds (enter e v.auction.router) x.id node x.amount x.best_usdc w
          (record {
            config = v.router;
            auction = self;
            configured = v.router_configured;
            wired = v.router_auction;
          })
          (record_of x)
          (record {
            account = record {
              config = v.vault;
              state = n;
              configured = v.vault_configured;
              known = known;
            };
            appetite = terms;
            declared = declared;
          })
          v.router_vault (invoked self e w v k own i x stored live v.auction.router)
          (v.vault_router ∙ ap some (sym v.auction_router))
          (subst (λ a. lookup a w.router.escrows ≡ some (record_of x)) (sym fair.own_id)
            (k.held i x stored ∙ rw live refl))
          capped fair.amount_positive (omega arith) amount_fits positive best_fits scaled able d in
      let reached =
        call_contract-reached e (Chain.router_address c) v.auction.router
          (λ inner. Router.settle inner x.id node x.amount x.best_usdc) w v.auction_router in
      let (u, left, router', ledger') =
        leave_line_succeeds self e w v k own i x stored live (is_queued x.status) t refl queue in
      (
        stored_exit (record x { status = Status.settled }) u,
        ground (
          arith,
          stored,
          v.auction_configured,
          signed,
          live,
          bidder,
          met,
          at_head_succeeds turn,
          reached,
          settled,
          left,
        ),
        ledger' ∙ ledger,
        subst
            (λ a.
              lookup a (insert x.id (record x { status = Status.settled }) u.auction.exits)
              ≡ some (record x { status = Status.settled }))
            fair.own_id
            (lookup-insert_self x.id (record x { status = Status.settled }) u.auction.exits),
      )
