-- ===== src/Auction/Custody.antt =====
-- The auction's exits against the router's escrow (contracts/exit_auction/src/lib.rs and
-- contracts/settlement_router/src/lib.rs): one record for each live exit, with its exact size.
pub mod Calls
use stellar_exit_contracts.Auction.Exits.Calls.{set_admin_table, initialize_table}
use stellar_exit_contracts.Auction.Exits.{IsSound, same_exit}
use stellar_exit_contracts.Auction.Operations.{Operation, perform, open_exit_answer}
use stellar_exit_contracts.Auction.Storage.{is_live, is_queued, router_settle, dequeue_if_queued}
use stellar_exit_contracts.Auction.Seller
use stellar_exit_contracts.Auction.Bids
use stellar_exit_contracts.Auction.Frame.{
  OutsideVault, release_prev-OutsideVault, router_settle-Settled, router_refund-Refunded,
  router_escrow-Escrowed, queue_enqueue-Entered,
}
use stellar_exit_contracts.Auction.Effects.Filling.{
  Filled, Filled-auction, accept_bid-Accepted, dequeue_if_queued-OutsideQueue,
}
use stellar_exit_contracts.Auction.Effects.Closing.{Lined, Lined-auction, close-Closed}
use stellar_exit_contracts.Auction.Effects.Bidding.{outbid, place_bid-Bid, Bid-OutsideVault}
use stellar_exit_contracts.Auction.Effects.Selling.{
  fresh_id, counted, opened, open_exit-Opened, Opened-auction, cancelled, cancel-Withdrawn,
  Withdrawn, Withdrawn-auction,
}
use stellar_exit_contracts.Router.Effects.{vault_pay_out-PaidOut}
use stellar_exit_contracts.Router.Payment.{pay_fee-cases}
use stellar_exit_contracts.Router.Settlement.{left_over, Settled}
use stellar_exit_contracts.Router.Once.{removed}
use stellar_exit_contracts.State.Router.{Escrow}
use stellar_exit_contracts.State.Router as RouterState
use stellar_exit_contracts.State.Auction.{Exit, Status}
use stellar_exit_contracts.State.Auction as AuctionState
use stellar_exit_contracts.Host.Chain.{Address, Env, Chain, World, enter}
use stellar_exit_contracts.Host.Call.{ok}
use stellar_exit_contracts.Prelude.{
  ℕ, ◌≡◌, refl, sym, ap, subst, ◌∙◌, inl, inr, Option, some, none, true, false, ◌==◌, ◌&&◌, arith,
  if◌then◌else◌, Bool-cases, ==→eq, ==_refl,
}
use stellar_exit_contracts.Prelude.Int.{ℤ, pos, ◌-ℤ◌, leb_ℤ}
use stellar_exit_contracts.Prelude.Dict.{
  Dict, lookup, insert, remove, lookup-insert, lookup-insert_self, lookup-remove,
}

-- What the router should hold for an exit: all of it while it is live, and then nothing.
abbrev pub held_for : Exit → Option Escrow
held_for x =
    if is_live x.status
    then some (record { seller = x.seller; asset = x.asset; amount = x.amount })
    else none

module _ {c : Chain} where
  abbrev pub escrow_of : ℕ → World c → Option Escrow
  escrow_of i w = lookup i w.router.escrows

  abbrev pub IsHeld : World c → Type 0
  IsHeld w = (i : ℕ) (x : Exit) → lookup i w.auction.exits ≡ some x → escrow_of i w ≡ held_for x

  -- One exit is written and the escrow of it alone may change.
  pub step-IsHeld :
      (w w' : World c) (i : ℕ) (new : Exit)
      → IsHeld w
      → w'.auction.exits ≡ insert i new w.auction.exits
      → ((j : ℕ) → (i == j) ≡ false → escrow_of j w' ≡ escrow_of j w)
      → escrow_of i w' ≡ held_for new
      → IsHeld w'
  step-IsHeld w w' i new held exits others own j x h = elim (Bool-cases (i == j)) [
    | inl here ↦
        subst (λ k. escrow_of k w' ≡ held_for x) (==→eq i j here)
          (own
            ∙ ap held_for (
                same_exit j j new x (insert i new w.auction.exits) refl
                  (lookup-insert j i new w.auction.exits ∙ rw here refl) (rw (sym exits) h)))
    | inr apart ↦
        others j apart
        ∙ held j x (sym (lookup-insert j i new w.auction.exits ∙ rw apart refl) ∙ rw (sym exits) h)
  ]

  pub left_over-other :
      (i j : ℕ) (held : Escrow) (remaining : ℤ) (w : World c)
      → (i == j) ≡ false
      → escrow_of j (left_over i held remaining w) ≡ escrow_of j w
  unfolding left_over
  left_over-other i j held remaining w apart =
      elim (Bool-cases (leb_ℤ remaining (pos 0) && leb_ℤ (pos 0) remaining)) [
        | inl nothing ↦ rw nothing (lookup-remove j i w.router.escrows ∙ rw apart refl)
        | inr rest ↦ rw rest (
            lookup-insert j i (record held { amount = remaining }) w.router.escrows ∙ rw apart refl)
      ]

  -- The payments leave the escrow alone.
  pub levied-router :
      {e : Env} {node : Address} {token_amount usdc_amount : ℤ} {i : ℕ} {w w' : World c}
      → (s : Settled e node token_amount usdc_amount i w w') → s.levied.router ≡ w.router
  levied-router {e} {node} {token_amount} {usdc_amount} {i} {w} {w'} s =
      let p =
        vault_pay_out-PaidOut e s.config node s.held.asset s.held.seller s.net w s.paid
          s.to_seller in
      elim (pay_fee-cases e s.config node s.held.asset s.paid s.levied s.fee s.to_treasury) [
        | inl (_, q) ↦ rw (q.result) (rw (p.result) refl)
        | inr (_, same) ↦ rw same (rw (p.result) refl)
      ]
