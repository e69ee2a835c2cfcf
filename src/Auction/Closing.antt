-- ===== src/Auction/Closing.antt =====
-- How the bidding on an exit ends (contracts/exit_auction/src/lib.rs, `close`, `accept_bid` and
-- `cancel`), seen from the line and from the vault.
use stellar_exit_contracts.Auction.Storage.{release_prev}
use stellar_exit_contracts.Auction.Bids.{close, place_bid}
use stellar_exit_contracts.Auction.Seller.{accept_bid, cancel}
use stellar_exit_contracts.Auction.Effects.Filling.{Filled-auction, accept_bid-Accepted}
use stellar_exit_contracts.Auction.Effects.Closing.{
  is_acceptable, is_in_turn, Lined, Lined-auction, close-Closed,
}
use stellar_exit_contracts.Auction.Effects.Bidding.{place_bid-Bid}
use stellar_exit_contracts.Auction.Effects.Selling.{cancel-Withdrawn}
use stellar_exit_contracts.Auction.Frame.{
  queue_enqueue-Entered, vault_commit-Committed, vault_release-Released,
}
use stellar_exit_contracts.Auction.Exits.{IsSound, same_exit}
use stellar_exit_contracts.Vault.Effects.{IsAuthorized}
use stellar_exit_contracts.Queue.Calls.{line}
use stellar_exit_contracts.State.Auction.{Config, Exit, Status}
use stellar_exit_contracts.State.Auction as AuctionState
use stellar_exit_contracts.State.Vault.{Appetite}
use stellar_exit_contracts.Host.Chain.{Address, Env, Chain, World}
use stellar_exit_contracts.Host.Call.{ok}
use stellar_exit_contracts.Prelude.{
  ℕ, ◌<◌, ◌≡◌, ◌≢◌, refl, subst, ap, Option, ◌∙◌, ◌⊎◌, inl, inr, true, false, ◌&&◌, some, none, [],
  ◌∷◌, ◌++◌, arith, ==_refl,
}
use stellar_exit_contracts.Prelude.Int.{ℤ, ◌≤ℤ◌, ◌<ℤ◌}
use stellar_exit_contracts.Prelude.Dict.{lookup, insert, lookup-insert_self}

module _ {c : Chain} where
  -- The record of an exit after its status is changed.
  written :
      (w w' : World c) (i : ℕ) (exit : Exit) (status : Status)
      → exit.id ≡ i
      → w'.auction.exits ≡ insert exit.id (record exit { status = status }) w.auction.exits
      → lookup i w'.auction.exits ≡ some (record exit { status = status })
  written w w' i exit status own exits = rw exits (
      subst
        (λ k.
          lookup k (insert exit.id (record exit { status = status }) w.auction.exits)
          ≡ some (record exit { status = status }))
        own (lookup-insert_self exit.id (record exit { status = status }) w.auction.exits))

  Lined-line :
      {e : Env} {exit : Exit} {w w' : World c}
      → Lined e exit w w'
      → line w' exit.asset ≡ line w exit.asset ++ exit.id ∷ []
  Lined-line {e} {exit} {w} {w'} l =
      rw
        (
          l.result,
          (queue_enqueue-Entered e l.config exit.id w l.entered exit.asset l.place
              l.to_queue).result,
        )
        (ground (arith, ==_refl exit.asset))

  -- A close that succeeds on a sound table comes after the window, and decides at once: a bid that
  -- meets the reserve while nobody stands ahead in the line of the asset settles the exit, and
  -- anything else sends the exit to the back of that line.
  pub close_decides :
      (e : Env) (i : ℕ) (w w' : World c) (x : Exit)
      → IsSound w
      → close e i w ≡ ok (tt, w')
      → lookup i w.auction.exits ≡ some x
      → (x.closes_at < e.timestamp)
        × ((((is_acceptable x && is_in_turn x w) ≡ true)
              × (lookup i w'.auction.exits ≡ some (record x { status = Status.settled })))
            ⊎ (((is_acceptable x && is_in_turn x w) ≡ false)
                × (lookup i w'.auction.exits ≡ some (record x { status = Status.queued }))
                × (line w' x.asset ≡ line w x.asset ++ i ∷ [])))
  close_decides e i w w' x s h stored =
      let k = close-Closed e i w w' h in
      let own = (s.fair i k.exit k.stored).own_id in
      subst
        (λ (v : Exit).
          (v.closes_at < e.timestamp)
          × ((((is_acceptable v && is_in_turn v w) ≡ true)
                × (lookup i w'.auction.exits ≡ some (record v { status = Status.settled })))
              ⊎ (((is_acceptable v && is_in_turn v w) ≡ false)
                  × (lookup i w'.auction.exits ≡ some (record v { status = Status.queued }))
                  × (line w' v.asset ≡ line w v.asset ++ i ∷ []))))
        (same_exit i i k.exit x w.auction.exits refl k.stored stored)
        (
          k.over,
          elim (k.outcome) [
            | inl (good, f) ↦ inl (
              good,
              written w w' i k.exit Status.settled own
                  (ap (λ (b : AuctionState.Storage). b.exits) (Filled-auction f)),
            )
            | inr (bad, l) ↦ inr (
              bad,
              written w w' i k.exit Status.queued own
                  (ap (λ (b : AuctionState.Storage). b.exits) (Lined-auction l)),
              Lined-line l ∙ ap (λ j. line w k.exit.asset ++ j ∷ []) own,
            )
          ],
        )

  -- An acceptance that succeeds on a sound table is the seller's, of a bid that meets the reserve,
  -- while nobody stands ahead in the line of the asset, and it settles the exit.
  pub accept_bid_in_turn :
      (e : Env) (i : ℕ) (w w' : World c) (x : Exit)
      → IsSound w
      → accept_bid e i w ≡ ok (tt, w')
      → lookup i w.auction.exits ≡ some x
      → IsAuthorized e x.seller
        × (x.min_accept_usdc ≤ℤ x.best_usdc)
        × (is_in_turn x w ≡ true)
        × (lookup i w'.auction.exits ≡ some (record x { status = Status.settled }))
  accept_bid_in_turn e i w w' x s h stored =
      let a = accept_bid-Accepted e i w w' h in
      let f = a.filling in
      subst
        (λ (v : Exit).
          IsAuthorized e v.seller
          × (v.min_accept_usdc ≤ℤ v.best_usdc)
          × (is_in_turn v w ≡ true)
          × (lookup i w'.auction.exits ≡ some (record v { status = Status.settled })))
        (same_exit i i a.exit x w.auction.exits refl a.stored stored)
        (
          a.signed,
          f.reserve_met,
          f.in_turn,
          written w w' i a.exit Status.settled ((s.fair i a.exit a.stored).own_id)
              (ap (λ (b : AuctionState.Storage). b.exits) (Filled-auction f)),
        )

  -- The old bid cannot be let go while less than it is left of its node's exposure.
  release_short :
      (best_node : Option Address) (prev : Address) (e : Env) (config : Config) (exit : Exit)
      (terms : Appetite) (w w' : World c)
      → best_node ≡ some prev
      → w.vault.appetites prev exit.asset ≡ some terms
      → terms.exposure <ℤ exit.best_usdc
      → release_prev best_node e config exit w ≢ ok (tt, w')
  release_short none prev e config exit terms w w' bidder declared short h = cc
  release_short (some n) prev e config exit terms w w' bidder declared short h =
      let r = vault_release-Released e config n exit.asset exit.best_usdc w w' h in
      ground (arith, bidder, declared, r.declared, r.exposed)

  -- An exit whose bidder has marked its exposure down below its bid can neither be cancelled nor be
  -- outbid by another node.
  pub marked_down_sticks :
      (i : ℕ) (w : World c) (x : Exit) (prev : Address) (terms : Appetite)
      → lookup i w.auction.exits ≡ some x
      → x.best_node ≡ some prev
      → w.vault.appetites prev x.asset ≡ some terms
      → terms.exposure <ℤ x.best_usdc
      → ((e : Env) (w' : World c) → cancel e i w ≢ ok (tt, w'))
        × ((e : Env) (node : Address) (usdc_amount : ℤ) (w' : World c)
            → node ≢ prev
            → place_bid e node i usdc_amount w ≢ ok (tt, w'))
  marked_down_sticks i w x prev terms stored bidder declared short = (
    λ e w' h.
        let k = cancel-Withdrawn e i w w' h in
        let same = same_exit i i k.exit x w.auction.exits refl k.stored stored in
        release_short x.best_node prev e k.config x terms w k.freed bidder declared short (
          subst (λ (v : Exit). release_prev v.best_node e k.config v w ≡ ok (tt, k.freed)) same
            k.to_free),
    λ e node usdc_amount w' other h.
        let b = place_bid-Bid e node i usdc_amount w w' h in
        let same = same_exit i i b.exit x w.auction.exits refl b.stored stored in
        let f =
          vault_commit-Committed e b.config node b.exit.asset usdc_amount w b.covered _
            b.to_cover in
        release_short x.best_node prev e b.config x terms b.covered b.freed bidder
          (rw (f.result) (ground (arith, other, declared))) short
          (subst (λ (v : Exit). release_prev v.best_node e b.config v b.covered ≡ ok (tt, b.freed))
            same b.to_free),
  )
