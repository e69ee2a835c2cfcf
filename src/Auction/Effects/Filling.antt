-- ===== src/Auction/Effects/Filling.antt =====
-- What `fill`, `accept_bid` and `close` of contracts/exit_auction/src/lib.rs have found and done when
-- they succeed.
use stellar_exit_contracts.Auction.Effects.{at_head_lem}
use stellar_exit_contracts.Auction.Frame.{settle-OutsideRouter, queue_dequeue-Left}
use stellar_exit_contracts.Auction.Storage.{
  fill, at_head, lets_through, router_settle, dequeue_if_queued, is_queued, is_live,
}
use stellar_exit_contracts.Auction.Seller.{accept_bid}
use stellar_exit_contracts.Queue.Calls.{line}
use stellar_exit_contracts.Vault.Effects.{IsAuthorized}
use stellar_exit_contracts.State.Auction.{Config, Exit, Status}
use stellar_exit_contracts.Host.Chain.{Address, Env, Chain, World}
use stellar_exit_contracts.Host.Call.{ok, Result-cases}
use stellar_exit_contracts.Prelude.{
  ℕ, ◌≡◌, refl, ◌∙◌, inl, inr, Bool, true, false, some, arith, Option-cases, ap,
}
use stellar_exit_contracts.Prelude.Int.{◌≤ℤ◌}
use stellar_exit_contracts.Prelude.Dict.{lookup, insert}
use stellar_exit_contracts.Prelude.Lists.{first}

module _ {c : Chain} where
  -- The exit as it is stored anew, in a world.
  abbrev pub stored_exit : Exit → World c → World c
  stored_exit exit w = record w {
    auction = record (w.auction) { exits = insert exit.id exit w.auction.exits };
  }

  pub record Filled (e : Env) (exit : Exit) (w w' : World c) : Type 0 where
    pub config : Config
    pub node : Address
    pub settled : World c
    pub left : World c
    pub configured : w.auction.config ≡ some config
    pub bidder : exit.best_node ≡ some node
    pub reserve_met : exit.min_accept_usdc ≤ℤ exit.best_usdc
    pub in_turn : lets_through (first (line w exit.asset)) exit.id ≡ true
    pub to_router :
        router_settle e config exit.id node exit.amount exit.best_usdc w ≡ ok (tt, settled)
    pub to_queue : dequeue_if_queued (is_queued exit.status) e config exit settled ≡ ok (tt, left)
    pub result : w' ≡ stored_exit (record exit { status = Status.settled }) left

  pub fill-Filled :
      (e : Env) (exit : Exit) (w w' : World c) → fill e exit w ≡ ok (tt, w') → Filled e exit w w'
  unfolding fill
  fill-Filled e exit w w' h = elim (Result-cases (at_head e exit w)) [
    | inl (x, refused) ↦ absurd (ground arith)
    | inr (answer, v, asked) ↦
        let (turn, same) = at_head_lem e exit w v answer asked in
        let asked' = asked ∙ ap (λ u. ok (answer, u)) same in
        elim (Option-cases w.auction.config) [
          | inl missing ↦ absurd (ground (arith, asked'))
          | inr (config, configured) ↦ elim (Option-cases exit.best_node) [
            | inl nobody ↦ absurd (ground (arith, asked'))
            | inr (node, bidder) ↦
                elim (Result-cases
                  (router_settle e config exit.id node exit.amount exit.best_usdc w)) [
                    | inl (x, refused) ↦ absurd (ground (arith, asked'))
                    | inr (_, settled, to_router) ↦
                        elim (Result-cases
                          (dequeue_if_queued (is_queued exit.status) e config exit settled)) [
                            | inl (x, refused) ↦ absurd (ground (arith, asked'))
                            | inr (_, left, to_queue) ↦ record {
                              config = config;
                              node = node;
                              settled = settled;
                              left = left;
                              configured = configured;
                              bidder = bidder;
                              reserve_met = ground (arith, asked');
                              in_turn = ground (arith, asked', turn);
                              to_router = to_router;
                              to_queue = to_queue;
                              result = ground (arith, asked');
                            }
                          ]
                  ]
          ]
        ]
  ]

  -- Leaving the line, if the exit stands in it, touches no other contract.
  pub record OutsideQueue (w w' : World c) : Type 0 where
    pub auction : w'.auction ≡ w.auction
    pub router : w'.router ≡ w.router
    pub vault : w'.vault ≡ w.vault
    pub ledger : w'.ledger ≡ w.ledger

  pub dequeue_if_queued-OutsideQueue :
      (queued : Bool) (e : Env) (config : Config) (exit : Exit) (w w' : World c)
      → dequeue_if_queued queued e config exit w ≡ ok (tt, w')
      → OutsideQueue w w'
  dequeue_if_queued-OutsideQueue false e config exit w w' h = ground arith
  dequeue_if_queued-OutsideQueue true e config exit w w' h =
      let l = queue_dequeue-Left e config exit.id w w' exit.asset h in
      record {
        auction = l.auction_kept;
        router = l.router_kept;
        vault = l.vault_kept;
        ledger = l.ledger_kept;
      }

  pub Filled-auction :
      {e : Env} {exit : Exit} {w w' : World c}
      → Filled e exit w w'
      → w'.auction ≡ (stored_exit (record exit { status = Status.settled }) w).auction
  Filled-auction {e} {exit} {w} {w'} f =
      let s =
        settle-OutsideRouter e f.config exit.id f.node exit.amount exit.best_usdc w f.settled
          f.to_router in
      let q =
        dequeue_if_queued-OutsideQueue (is_queued exit.status) e f.config exit f.settled f.left
          f.to_queue in
      rw (f.result, q.auction, s.auction) refl

  pub record Accepted (e : Env) (exit_id : ℕ) (w w' : World c) : Type 0 where
    pub exit : Exit
    pub stored : lookup exit_id w.auction.exits ≡ some exit
    pub signed : IsAuthorized e exit.seller
    pub live : is_live exit.status ≡ true
    pub filling : Filled e exit w w'

  pub accept_bid-Accepted :
      (e : Env) (exit_id : ℕ) (w w' : World c)
      → accept_bid e exit_id w ≡ ok (tt, w')
      → Accepted e exit_id w w'
  unfolding accept_bid
  accept_bid-Accepted e exit_id w w' h = elim (Option-cases (lookup exit_id w.auction.exits)) [
    | inl unknown ↦ absurd (ground arith)
    | inr (exit, stored) ↦ record {
      exit = exit;
      stored = stored;
      signed = ground arith;
      live = ground arith;
      filling = fill-Filled e exit w w' (ground arith);
    }
  ]
