-- ===== src/System/History.antt =====
-- The histories of contracts/ from the day when they are wired: the contracts agree with each other and
-- hold what they owe.
use stellar_exit_contracts.System.{Operation, perform, IsWired, IsConsistent}
use stellar_exit_contracts.System.Quiet.{IsQuiet-IsConsistent}
use stellar_exit_contracts.System.Consistency.{perform-IsConsistent}
use stellar_exit_contracts.Auction.Pledges.{committed_of}
use stellar_exit_contracts.Queue.Line.{distinct}
use stellar_exit_contracts.Prelude.Lists.{contains}
use stellar_exit_contracts.State.Router as RouterState
use stellar_exit_contracts.State.Queue as QueueState
use stellar_exit_contracts.System.Funds.{IsFunded, IsGuarded}
use stellar_exit_contracts.System.Funds.Calls.{address_of, perform-IsFunded}
use stellar_exit_contracts.Router.Operations.{FeeIsCapped}
use stellar_exit_contracts.Vault.Operations.Reachable.{Elsewhere, Elsewhere-IsSolvent}
use stellar_exit_contracts.Vault.Solvency.{IsBacked}
use stellar_exit_contracts.State.Vault as VaultState
use stellar_exit_contracts.Host.Chain.{Address, Env, Chain, World, Sep41}
use stellar_exit_contracts.Host.Call.{ok}
use stellar_exit_contracts.Prelude.{◌≤◌, ◌≡◌, refl, ap, Option, none, some, [], arith}
use stellar_exit_contracts.Prelude.Dict.{lookup, total}

-- The vault owes nothing before anyone has deposited.
nothing-IsBacked :
    (c : Chain) (self : Address) (l : Chain.Ledger c) (o : Option VaultState.Config)
    → IsBacked c self o [] l
unfolding total
nothing-IsBacked c self l none = refl
nothing-IsBacked c self l (some config) = omega arith

module _ {c : Chain} where
  -- Nobody has deposited or sold anything yet, and the fee is within its ceiling.
  pub record IsFresh (w : World c) : Type 0 where
    pub exits : w.auction.exits ≡ []
    pub lines : (asset : Address) → w.queue.queues asset ≡ none
    pub nodes : w.vault.nodes ≡ []
    pub withdrawals : (a : Address) → w.vault.withdrawals a ≡ none
    pub escrows : w.router.escrows ≡ []
    pub fee : FeeIsCapped w.router.config

  -- A change that no call of the contracts makes: what they store stays, and nothing is taken from
  -- the vault or the router.
  pub record IsSparing (w w' : World c) : Type 0 where
    pub vault : Elsewhere (Chain.vault_address c) w w'
    pub router : w'.router ≡ w.router
    pub queue : w'.queue ≡ w.queue
    pub auction : w'.auction ≡ w.auction
    pub escrow :
        (t : Address)
        → Chain.balance c w.ledger t (Chain.router_address c)
          ≤ Chain.balance c w'.ledger t (Chain.router_address c)

  pub data History (self : Address) (start : World c) : World c → Type 0 where
    here : History self start start
    call :
        {w w' : World c} (op : Operation) (e : Env)
        → History self start w
        → IsGuarded c self e
        → e.current ≡ address_of c self op
        → IsWired self w
        → perform op e w ≡ ok (tt, w')
        → History self start w'
    elsewhere : {w w' : World c} → History self start w → IsSparing w w' → History self start w'

  IsFresh-IsFunded : (w : World c) → IsFresh w → IsFunded w
  unfolding lookup total
  IsFresh-IsFunded w f = record {
    solvent = record {
      accounts = λ b. rw (f.nodes, f.withdrawals b) refl;
      backed = rw (f.nodes) (nothing-IsBacked c (Chain.vault_address c) w.ledger w.vault.config);
    };
    secure = record {
      cover = record {
        positive = λ i. rw (f.escrows) tt;
        covered = λ t. rw (f.escrows) (omega arith);
      };
      fee = f.fee;
    };
  }

  IsSparing-IsFunded : {w w' : World c} → IsSparing w w' → IsFunded w → IsFunded w'
  IsSparing-IsFunded {w} {w'} m k = record {
    solvent = Elsewhere-IsSolvent (Chain.vault_address c) k.solvent m.vault;
    secure = record {
      cover = record {
        positive = rw (m.router) k.secure.cover.positive;
        covered = λ t. rw (m.router) (omega (arith, k.secure.cover.covered t, m.escrow t));
      };
      fee = rw (m.router) k.secure.fee;
    };
  }

  IsFresh-IsConsistent : (w : World c) → IsFresh w → IsConsistent w
  unfolding lookup total contains distinct
  IsFresh-IsConsistent w f = record {
    sound = record { fair = λ i x h. absurd (ground (arith, h, f.exits)); unopened = λ h. f.exits };
    orderly = record {
      bounded = λ asset. rw (f.lines asset) (omega arith);
      unrepeated = λ asset. rw (f.lines asset) refl;
    };
    held = λ i x h. absurd (ground (arith, h, f.exits));
    lined = record {
      stands = λ asset i h. absurd (ground (arith, h, f.lines asset));
      waits = λ i x h. absurd (ground (arith, h, f.exits));
    };
    pledges = λ node. rw (f.exits, f.nodes) refl;
    backed = λ i x node h bidder. absurd (ground (arith, h, f.exits));
  }

  IsSparing-IsConsistent : {w w' : World c} → IsSparing w w' → IsConsistent w → IsConsistent w'
  IsSparing-IsConsistent m = IsQuiet-IsConsistent (record {
    auction = m.auction;
    escrows = ap (λ (r : RouterState.Storage). r.escrows) m.router;
    lines = ap (λ (q : QueueState.Storage). q.queues) m.queue;
    locked =
        λ node. ap (λ (s : VaultState.Storage). committed_of (lookup node s.nodes)) (m.vault.vault);
    terms = λ node t there. rw (m.vault.vault) there;
  })

  -- From the wired contracts, before anyone has deposited or sold anything and with a fee within
  -- its ceiling, every history of calls from outside, each made while they are wired, keeps what
  -- the four store in agreement, the vault solvent and the escrow covered, if tokens move balances
  -- as SEP-41 says, and the addresses of the contracts differ and sign nothing.
  pub History-IsSafe :
      (self : Address) (start : World c) {w : World c}
      → Sep41 c
      → IsFresh start
      → History self start w
      → IsConsistent w × IsFunded w
  History-IsSafe self start law f here = (IsFresh-IsConsistent start f, IsFresh-IsFunded start f)
  History-IsSafe self start law f (call {w} {w'} op e r g own v h) =
      let (k, m) = History-IsSafe self start law f r in
      (
        perform-IsConsistent self op e w w' g.external v k h,
        perform-IsFunded self op e w w' law g own v m h,
      )
  History-IsSafe self start law f (elsewhere r s) =
      let (k, m) = History-IsSafe self start law f r in
      (IsSparing-IsConsistent s k, IsSparing-IsFunded s m)
