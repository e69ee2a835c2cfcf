-- ===== src/Auction/Life/History.antt =====
-- The life of an exit over a history of calls of contracts/exit_auction/src/lib.rs, with anything done
-- to the other contracts in between.
use stellar_exit_contracts.Auction.Life.{
  Lives, stays, moves, terms, Lives-terms, Lives-closed, Lives-best, Lives-settled,
}
use stellar_exit_contracts.Auction.Life.Calls.{perform-Continues}
use stellar_exit_contracts.Auction.Exits.Calls.{perform-IsSound}
use stellar_exit_contracts.Auction.Exits.{IsSound, same_exit}
use stellar_exit_contracts.Auction.Operations.{Operation, perform}
use stellar_exit_contracts.Auction.Storage.{is_live}
use stellar_exit_contracts.State.Auction.{Exit, Status}
use stellar_exit_contracts.Host.Chain.{Address, Env, Chain, World}
use stellar_exit_contracts.Host.Call.{ok}
use stellar_exit_contracts.Prelude.{
  ℕ, ◌≡◌, refl, sym, ap, subst, ◌∙◌, inl, inr, false, true, some, arith,
}
use stellar_exit_contracts.Prelude.Int.{◌≤ℤ◌}
use stellar_exit_contracts.Prelude.Dict.{lookup}

module _ {c : Chain} where
  pub data Reach (start : World c) : World c → Type 0 where
    here : Reach start start
    call :
        {w w' : World c} (op : Operation) (e : Env)
        → Reach start w
        → perform op e w ≡ ok (tt, w')
        → Reach start w'
    elsewhere : {w w' : World c} → Reach start w → w'.auction ≡ w.auction → Reach start w'

  Reach-IsSound : {start w : World c} → IsSound start → Reach start w → IsSound w
  Reach-IsSound s here = s
  Reach-IsSound s (call {w} {w'} op e r h) = perform-IsSound op e w w' (Reach-IsSound s r) h
  Reach-IsSound s (elsewhere {w} {w'} r same) =
      let before = Reach-IsSound s r in
      record { fair = λ i x. rw same (before.fair i x); unopened = rw same before.unopened }

  Reach-Lives :
      {start w : World c} (j : ℕ) (x : Exit)
      → IsSound start
      → Reach start w
      → lookup j start.auction.exits ≡ some x
      → (y : Exit) × (lookup j w.auction.exits ≡ some y) × Lives x y
  Reach-Lives j x s here stored = (x, stored, stays)
  Reach-Lives j x s (call {w} {w'} op e r h) stored =
      let (y, found, life) = Reach-Lives j x s r stored in
      let (z, next, step) = perform-Continues op e w w' j y (Reach-IsSound s r) h found in
      elim step [
        | inl same ↦ (z, next, subst (λ v. Lives x v) (sym same) life)
        | inr m ↦ (z, next, moves life m)
      ]
  Reach-Lives j x s (elsewhere {w} {w'} r same) stored =
      let (y, found, life) = Reach-Lives j x s r stored in (y, rw same found, life)

  -- Once an exit of a sound table is settled or cancelled, its record never changes again,
  -- whatever is called.
  pub closed_forever :
      {start w : World c} (j : ℕ) (x : Exit)
      → IsSound start
      → Reach start w
      → lookup j start.auction.exits ≡ some x
      → is_live x.status ≡ false
      → lookup j w.auction.exits ≡ some x
  closed_forever {w} j x s r stored closed =
      let (y, found, life) = Reach-Lives j x s r stored in
      found ∙ ap some (Lives-closed life closed)

  -- An exit that is live at one time and settled later, after any history of auction calls on a
  -- sound table and anything done to the other contracts, is settled on the terms that its seller
  -- fixed, with a bidder whose bid is at least the seller's reserve and at least the bid that
  -- stood at the earlier time.
  pub settled_at_best :
      {start w : World c} (j : ℕ) (x y : Exit)
      → IsSound start
      → Reach start w
      → lookup j start.auction.exits ≡ some x
      → is_live x.status ≡ true
      → lookup j w.auction.exits ≡ some y
      → y.status ≡ Status.settled
      → (terms y ≡ terms x)
        × ((node : Address) × (y.best_node ≡ some node))
        × (x.min_accept_usdc ≤ℤ y.best_usdc)
        × (x.best_usdc ≤ℤ y.best_usdc)
  settled_at_best {w} j x y s r stored live later settled =
      let (z, found, life') = Reach-Lives j x s r stored in
      let life =
        subst (λ v. Lives x v) (same_exit j j z y (w.auction.exits) refl found later) life' in
      let (node, bidder, met) = Lives-settled life live settled in
      (
        Lives-terms life,
        (node, bidder),
        subst (λ m. m ≤ℤ y.best_usdc) (ap (λ (v : Exit). v.min_accept_usdc) (Lives-terms life)) met,
        Lives-best life (λ h. ground (arith, settled, h)),
      )
