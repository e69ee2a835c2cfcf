-- ===== src/System/Quiet.antt =====
-- A call that changes neither exits, escrow records, lines nor locked capital keeps the system
-- consistent (contracts/).
use stellar_exit_contracts.System.{IsConsistent}
use stellar_exit_contracts.Auction.Pledges.{locked_for}
use stellar_exit_contracts.Auction.Backed.{KeepsTerms}
use stellar_exit_contracts.Host.Chain.{Address, Chain, World}
use stellar_exit_contracts.Prelude.{◌≡◌, ◌∙◌}

module _ {c : Chain} where
  pub record IsQuiet (w w' : World c) : Type 0 where
    pub auction : w'.auction ≡ w.auction
    pub escrows : w'.router.escrows ≡ w.router.escrows
    pub lines : w'.queue.queues ≡ w.queue.queues
    pub locked : (node : Address) → locked_for node w' ≡ locked_for node w
    pub terms : KeepsTerms w w'

  pub IsQuiet-IsConsistent : {w w' : World c} → IsQuiet w w' → IsConsistent w → IsConsistent w'
  IsQuiet-IsConsistent {w} {w'} q k = record {
    sound = record {
      fair = rw (q.auction) (k.sound.fair);
      unopened = rw (q.auction) (k.sound.unopened);
    };
    orderly = record {
      bounded = rw (q.lines) (k.orderly.bounded);
      unrepeated = rw (q.lines) (k.orderly.unrepeated);
    };
    held = rw (q.auction, q.escrows) k.held;
    lined = record {
      stands = rw (q.auction, q.lines) (k.lined.stands);
      waits = rw (q.auction, q.lines) (k.lined.waits);
    };
    pledges = λ node. q.locked node ∙ rw (q.auction) (k.pledges node);
    backed =
        rw (q.auction)
          (λ i x node stored bidder. q.terms node x.asset (k.backed i x node stored bidder));
  }
