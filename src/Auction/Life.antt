-- ===== src/Auction/Life.antt =====
-- The life of one exit in contracts/exit_auction/src/lib.rs, from status to status, as a relation
-- between the records before and after.
pub mod Calls
pub mod History
use stellar_exit_contracts.Auction.Effects.Bidding.{outbid}
use stellar_exit_contracts.Auction.Effects.Closing.{is_acceptable}
use stellar_exit_contracts.Auction.Effects.Selling.{cancelled}
use stellar_exit_contracts.Auction.Storage.{is_live, is_taking_bids}
use stellar_exit_contracts.State.Auction.{Exit, Status}
use stellar_exit_contracts.Host.Chain.{Address}
use stellar_exit_contracts.Prelude.{
  ℕ, ◌≡◌, ◌≢◌, refl, sym, ◌∙◌, ap, true, false, arith, ◌⊎◌, inl, inr, some, none, List, ◌<◌, ◌&&◌,
  ltb,
}
use stellar_exit_contracts.Prelude.Lists.{contains}
use stellar_exit_contracts.Prelude.Int.{ℤ, pos, ◌≤ℤ◌, ◌<ℤ◌, int_laws}

-- One transition, in a call at `now` that leaves `line` as the line of the asset: a live exit gets a
-- higher bid, not after its window while it takes bids; one that takes bids gets a place in the line,
-- after its window; a live exit is filled at a bid that meets the reserve, or is cancelled.
pub data Moved (now : ℕ) (line : List ℕ) (x y : Exit) : Type 0 where
  bids :
      (node : Address) (usdc_amount : ℤ)
      → is_live x.status ≡ true
      → (is_taking_bids x.status && ltb x.closes_at now) ≡ false
      → pos 0 <ℤ usdc_amount
      → x.best_usdc <ℤ usdc_amount
      → y ≡ outbid node usdc_amount x
      → Moved now line x y
  lines_up :
      is_taking_bids x.status ≡ true
      → x.closes_at < now
      → contains x.id line ≡ true
      → y ≡ record x { status = Status.queued }
      → Moved now line x y
  fills :
      (node : Address)
      → is_live x.status ≡ true
      → x.best_node ≡ some node
      → x.min_accept_usdc ≤ℤ x.best_usdc
      → y ≡ record x { status = Status.settled }
      → Moved now line x y
  cancels : is_live x.status ≡ true → y ≡ cancelled x → Moved now line x y

-- Any number of transitions.
pub data Lives (x : Exit) : Exit → Type 0 where
  stays : Lives x x
  moves : {y z : Exit} {now : ℕ} {line : List ℕ} → Lives x y → Moved now line y z → Lives x z

-- What the seller fixed when it opened the exit: the record without its status and its bid.
abbrev pub terms : Exit → Exit
terms x = record x { status = Status.taking_bids; best_node = none; best_usdc = pos 0 }

Moved-terms : {x y : Exit} {now : ℕ} {line : List ℕ} → Moved now line x y → terms y ≡ terms x
Moved-terms (bids node usdc_amount live in_time positive higher e) = ap terms e
Moved-terms (lines_up taking over there e) = ap terms e
Moved-terms (fills node live bidder met e) = ap terms e
Moved-terms (cancels live e) = ap terms e

pub Lives-terms : {x y : Exit} → Lives x y → terms y ≡ terms x
Lives-terms stays = refl
Lives-terms (moves l m) = Moved-terms m ∙ Lives-terms l

-- Only a live exit moves.
Moved-is_live :
    {x y : Exit} {now : ℕ} {line : List ℕ} → Moved now line x y → is_live x.status ≡ true
Moved-is_live (bids node usdc_amount live in_time positive higher e) = live
Moved-is_live (lines_up taking over there e) = ground (arith, taking)
Moved-is_live (fills node live bidder met e) = live
Moved-is_live (cancels live e) = live

-- A settled or cancelled exit stays as it is.
pub Lives-closed : {x y : Exit} → Lives x y → is_live x.status ≡ false → y ≡ x
Lives-closed stays closed = refl
Lives-closed {x} (moves {y} l m) closed =
    absurd
      (ground (arith, Moved-is_live m, ap (λ (z : Exit). is_live z.status) (Lives-closed l closed)))

live-ne-cancelled : (status : Status) → is_live status ≡ true → status ≢ Status.cancelled
live-ne-cancelled status live e = ground (arith, live, e)

-- Unless it is cancelled, its standing bid never falls.
pub Lives-best : {x y : Exit} → Lives x y → y.status ≢ Status.cancelled → x.best_usdc ≤ℤ y.best_usdc
Lives-best stays kept = omega arith
Lives-best {x} (moves {y} l (bids node usdc_amount live in_time positive higher e)) kept =
    let before = Lives-best l (live-ne-cancelled y.status live) in
    rw e (omega (arith, before, higher))
Lives-best {x} (moves {y} l (lines_up taking over there e)) kept =
    rw e (Lives-best l (λ h. ground (arith, taking, h)))
Lives-best {x} (moves {y} l (fills node live bidder met e)) kept =
    rw e (Lives-best l (live-ne-cancelled y.status live))
Lives-best {x} (moves {y} l (cancels live e)) kept = absurd (kept (ap (λ (z : Exit). z.status) e))

-- An exit that is live and later settled has a bidder, whose bid meets the reserve.
pub Lives-settled :
    {x y : Exit}
    → Lives x y
    → is_live x.status ≡ true
    → y.status ≡ Status.settled
    → (node : Address) × (y.best_node ≡ some node) × (y.min_accept_usdc ≤ℤ y.best_usdc)
Lives-settled stays live settled = absurd (ground (arith, live, settled))
Lives-settled (moves l (bids node usdc_amount live in_time positive higher e)) start settled =
    absurd (ground (arith, live, sym (ap (λ (z : Exit). z.status) e) ∙ settled))
Lives-settled (moves l (lines_up taking over there e)) start settled =
    absurd (ground (arith, sym (ap (λ (z : Exit). z.status) e) ∙ settled))
Lives-settled (moves l (fills node live bidder met e)) start settled = (node, rw e bidder, rw e met)
Lives-settled (moves l (cancels live e)) start settled =
    absurd (ground (arith, sym (ap (λ (z : Exit). z.status) e) ∙ settled))
