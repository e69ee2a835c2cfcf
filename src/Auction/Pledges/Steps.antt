-- ===== src/Auction/Pledges/Steps.antt =====
-- How the sum of a node's standing bids follows a change of one exit
-- (contracts/exit_auction/src/lib.rs).
use stellar_exit_contracts.Auction.Pledges.{is_bidder, pledge, pledged, locked_for, IsPledged}
use stellar_exit_contracts.Auction.Storage.{is_live}
use stellar_exit_contracts.Auction.Effects.Bidding.{outbid}
use stellar_exit_contracts.State.Auction.{Exit}
use stellar_exit_contracts.Host.Chain.{Address, Chain, World}
use stellar_exit_contracts.Prelude.{
  ℕ, ◌+◌, ◌≡◌, refl, ap, ◌∙◌, inl, inr, true, false, some, arith, Bool-cases, ◌==◌, if◌then◌else◌,
}
use stellar_exit_contracts.Prelude.Int.{ℤ, pos, negsuc, pos_part, ◌+ℤ◌, ◌-ℤ◌, ◌≤ℤ◌, ◌<ℤ◌}
use stellar_exit_contracts.Prelude.Dict.{Dict, lookup, insert, total-insert}

pledged-insert :
    (node : Address) (i : ℕ) (exit new : Exit) (exits : Dict Exit)
    → lookup i exits ≡ some exit
    → pledged node (insert i new exits) + pledge node exit ≡ pledged node exits + pledge node new
pledged-insert node i exit new exits stored = ground (arith, total-insert (pledge node) i new exits)

-- A bid taken away from a sum of bids, or put on it, in the integers.
pos-minus : (p q : ℕ) (bid : ℤ) → pos 0 ≤ℤ bid → q + pos_part bid ≡ p → pos p -ℤ bid ≡ pos q
unfolding ◌-ℤ◌
pos-minus p q (pos b) nonneg e = ground arith
pos-minus p q (negsuc b) nonneg e = absurd (omega (arith, nonneg))

pos-plus : (p q : ℕ) (bid : ℤ) → pos 0 ≤ℤ bid → p + pos_part bid ≡ q → pos p +ℤ bid ≡ pos q
unfolding ◌+ℤ◌
pos-plus p q (pos b) nonneg e = ground arith
pos-plus p q (negsuc b) nonneg e = absurd (omega (arith, nonneg))

-- What a new bid adds to the sum of a node's.
abbrev added : Address → ℤ → Address → ℕ
added node usdc_amount m = if node == m then pos_part usdc_amount else 0

module _ {c : Chain} (w w' : World c) (pledges : IsPledged w) (i : ℕ) (exit new : Exit)
    (stored : lookup i w.auction.exits ≡ some exit)
    (exits : w'.auction.exits ≡ insert i new w.auction.exits) where
  -- The exit keeps its bid, and the vault its accounts.
  pub same_bid-IsPledged :
      w'.vault ≡ w.vault → ((m : Address) → pledge m new ≡ pledge m exit) → IsPledged w'
  same_bid-IsPledged vault same m =
      rw (vault, exits)
        (pledges m
          ∙ ap pos (ground (arith, pledged-insert m i exit new w.auction.exits stored, same m)))

  -- The exit ends, and its bid is let go or paid.
  pub drop-IsPledged :
      is_live exit.status ≡ true
      → is_live new.status ≡ false
      → pos 0 ≤ℤ exit.best_usdc
      → ((m : Address)
          → locked_for m w' ≡ (
              if is_bidder exit.best_node m
              then locked_for m w -ℤ exit.best_usdc
              else locked_for m w))
      → IsPledged w'
  drop-IsPledged live ended nonneg freed m =
      let sum = pledged-insert m i exit new w.auction.exits stored in
      freed m
      ∙ rw exits (elim (Bool-cases (is_bidder exit.best_node m)) [
        | inl mine ↦
            rw (mine, pledges m)
              (pos-minus _ _ exit.best_usdc nonneg (ground (arith, sum, live, ended, mine)))
        | inr other ↦ rw other (pledges m ∙ ap pos (ground (arith, sum, live, ended, other)))
      ])

  raised :
      (node : Address) (usdc_amount : ℤ) (v : World c) (m : Address)
      → pos 0 <ℤ usdc_amount
      → locked_for m v ≡ (if node == m then locked_for m w +ℤ usdc_amount else locked_for m w)
      → locked_for m v ≡ pos (pledged m w.auction.exits + added node usdc_amount m)
  raised node usdc_amount v m positive gained = gained ∙ elim (Bool-cases (node == m)) [
    | inl mine ↦ rw (mine, pledges m) (pos-plus _ _ usdc_amount (omega (arith, positive)) refl)
    | inr other ↦ rw other (pledges m ∙ ap pos (omega arith))
  ]

  -- A higher bid takes the place of the standing one.
  pub bid-IsPledged :
      (node : Address) (usdc_amount : ℤ)
      → new ≡ outbid node usdc_amount exit
      → is_live exit.status ≡ true
      → pos 0 ≤ℤ exit.best_usdc
      → pos 0 <ℤ usdc_amount
      → (v : World c)
      → ((m : Address)
          → locked_for m v ≡ (if node == m then locked_for m w +ℤ usdc_amount else locked_for m w))
      → ((m : Address)
          → locked_for m w' ≡ (
              if is_bidder exit.best_node m
              then locked_for m v -ℤ exit.best_usdc
              else locked_for m v))
      → IsPledged w'
  bid-IsPledged node usdc_amount bid live nonneg positive v gained freed m =
      let sum = pledged-insert m i exit new w.auction.exits stored in
      let up = raised node usdc_amount v m positive (gained m) in
      freed m
      ∙ rw exits (elim (Bool-cases (is_bidder exit.best_node m)) [
        | inl mine ↦
            rw (mine, up)
              (pos-minus _ _ exit.best_usdc nonneg (ground (arith, sum, live, bid, mine)))
        | inr other ↦ rw other (up ∙ ap pos (ground (arith, sum, live, bid, other)))
      ])
