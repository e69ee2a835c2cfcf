-- ===== src/System/Cancelling.antt =====
-- A seller gets its tokens back (contracts/exit_auction/src/lib.rs, `cancel`): the calls that it takes
-- all succeed.
use stellar_exit_contracts.System.Progress.{released, release_succeeds, refund_succeeds}
use stellar_exit_contracts.System.{IsWired, IsConsistent}
use stellar_exit_contracts.System.Bidder.{
  bidder_account, committed_fits, invoked, offered, leave_line_succeeds,
}
use stellar_exit_contracts.Auction.Storage.{
  is_live, is_queued, release_prev, release_best, vault_release, router_refund,
}
use stellar_exit_contracts.Auction.Seller.{cancel}
use stellar_exit_contracts.Auction.Effects.Selling.{cancelled}
use stellar_exit_contracts.Auction.Effects.Filling.{stored_exit}
use stellar_exit_contracts.Router
use stellar_exit_contracts.Vault.Hooks
use stellar_exit_contracts.Vault.Hooks.{reserved}
use stellar_exit_contracts.Vault.Effects.{IsAuthorized, Backing}
use stellar_exit_contracts.Vault.Solvency.{AccountsAreSound}
use stellar_exit_contracts.State.Auction.{Exit}
use stellar_exit_contracts.State.Vault.{Appetite}
use stellar_exit_contracts.State.Router.{Escrow}
use stellar_exit_contracts.State.Router as RouterState
use stellar_exit_contracts.State.Events.{Event, AuctionEvent, RouterEvent}
use stellar_exit_contracts.Host.Chain.{Address, Env, Chain, World, enter}
use stellar_exit_contracts.Host.Call.{ok, call_contract-reached}
use stellar_exit_contracts.Prelude.{
  ◌∷◌, ℕ, ◌≡◌, refl, sym, subst, ap, ◌∙◌, true, Option, some, none, arith,
}
use stellar_exit_contracts.Prelude.Int.{◌≤ℤ◌, fits}
use stellar_exit_contracts.Prelude.Dict.{lookup-insert_self, lookup, insert, remove}

module _ {c : Chain} where
  -- The bidder's terms still count the bid.
  abbrev pub IsCounted : Exit → World c → Type 0
  IsCounted x w =
      (node : Address)
      → x.best_node ≡ some node
      → (terms : Appetite) × (w.vault.appetites node x.asset ≡ some terms)
        × (x.best_usdc ≤ℤ terms.exposure)
        × (fits terms.exposure ≡ true)

  module _ (self : Address) (e : Env) (w : World c) (v : IsWired self w) (k : IsConsistent w)
      (own : e.current ≡ self) (i : ℕ) (x : Exit) (stored : lookup i w.auction.exits ≡ some x)
      (live : is_live x.status ≡ true) where
    release_bid_succeeds :
        (best_node : Option Address)
        → x.best_node ≡ best_node
        → AccountsAreSound w.vault.nodes w.vault.withdrawals
        → IsCounted x w
        → (u : World c) × (release_prev best_node e v.auction x w ≡ ok (tt, u))
          × (u.router ≡ w.router)
          × (u.queue ≡ w.queue)
          × (u.ledger ≡ w.ledger)
    unfolding vault_release released
    release_bid_succeeds none bidder accounts counted = (w, refl, refl, refl, refl)
    release_bid_succeeds (some node) bidder accounts counted =
        let positive = offered self e w v k own i x stored live node bidder in
        let (n, known, covered) =
          bidder_account self e w v k own i x stored live node bidder positive in
        let (terms, declared, exposed, fit) = counted node bidder in
        let b : Backing node x.asset w = record {
          account = record {
            config = v.vault;
            state = n;
            configured = v.vault_configured;
            known = known;
          };
          appetite = terms;
          declared = declared;
        } in
        (
          released node x.asset x.best_usdc w b,
          call_contract-reached e (Chain.vault_address c) v.auction.vault
                (λ inner. Hooks.release inner node x.asset x.best_usdc) w v.auction_vault
              ∙ release_succeeds (enter e v.auction.vault) node x.asset self x.best_usdc w b
                  v.vault_auction (invoked self e w v k own i x stored live v.auction.vault)
                  positive covered exposed
                  (committed_fits self e w v k own i x stored live accounts node n known) fit,
          refl,
          refl,
          refl,
        )

    unfoldable pub held_record : Escrow
    held_record = record { seller = x.seller; asset = x.asset; amount = x.amount }

    -- The router after it has given the tokens back.
    refunded : Chain.Ledger c → World c → World c
    unfolding held_record
    refunded l t = record t {
      router = record (t.router) { escrows = remove x.id t.router.escrows };
      ledger = l;
      events = Event.router (RouterEvent.refunded x.asset x.id x.seller x.amount) ∷ t.events;
    }

    give_back_succeeds :
        (l : Chain.Ledger c) (t : World c)
        → t.router ≡ w.router
        → t.ledger ≡ w.ledger
        → Chain.transfer c
            (enter (enter e (Chain.router_address c)) x.asset)
            x.asset
            (Chain.router_address c)
            x.seller
            x.amount
            w.ledger
          ≡ some l
        → router_refund e v.auction x.id t ≡ ok (tt, refunded l t)
    unfolding router_refund refunded held_record
    give_back_succeeds l t router ledger moved =
        call_contract-reached e (Chain.router_address c) v.auction.router
          (λ inner. Router.refund inner x.id) t v.auction_router
        ∙ refund_succeeds (enter e v.auction.router) x.id self t v.router held_record l
            (ap (λ (r : RouterState.Storage). r.config) router ∙ v.router_configured)
            v.router_auction (invoked self e w v k own i x stored live v.auction.router)
            (ap (λ (r : RouterState.Storage). lookup x.id r.escrows) router
              ∙ subst (λ a. lookup a w.router.escrows ≡ some held_record)
                  (sym ((k.sound.fair i x stored).own_id)) (k.held i x stored ∙ rw live refl))
            (subst
              (λ a.
                Chain.transfer c (enter (enter e a) x.asset) x.asset a x.seller x.amount t.ledger
                ≡ some l)
              (sym v.auction_router)
              (ap
                  (Chain.transfer c (enter (enter e (Chain.router_address c)) x.asset) x.asset
                    (Chain.router_address c) x.seller x.amount)
                  ledger
                ∙ moved))

    -- The seller of a live exit who signs gets its tokens back and the exit is cancelled, whether it
    -- waits in the line or not, in a consistent and wired system with sound accounts, if the
    -- terms of the bidder, where there is one, still count its bid, and the token makes the transfer.
    pub cancel_succeeds :
        (l : Chain.Ledger c)
        → AccountsAreSound w.vault.nodes w.vault.withdrawals
        → IsCounted x w
        → IsAuthorized e x.seller
        → Chain.transfer c
            (enter (enter e (Chain.router_address c)) x.asset)
            x.asset
            (Chain.router_address c)
            x.seller
            x.amount
            w.ledger
          ≡ some l
        → (w' : World c) × (cancel e i w ≡ ok (tt, w'))
          × (w'.ledger ≡ l)
          × (lookup i w'.auction.exits ≡ some (cancelled x))
    unfolding cancel release_best refunded
    cancel_succeeds l accounts counted signed moved =
        let (u, freed, router, queue, ledger) =
          release_bid_succeeds x.best_node refl accounts counted in
        let (t, left, router', ledger') =
          leave_line_succeeds self e w v k own i x stored live (is_queued x.status) u refl queue in
        let back = give_back_succeeds l t (router' ∙ router) (ledger' ∙ ledger) moved in
        (
          record (stored_exit (cancelled x) (refunded l t)) {
            events =
                Event.auction (AuctionEvent.exit_cancelled x.asset i x.seller)
                ∷ (refunded l t).events;
          },
          ground (arith, stored, v.auction_configured, signed, live, freed, left, back),
          refl,
          subst (λ a. lookup a (insert x.id (cancelled x) t.auction.exits) ≡ some (cancelled x))
              ((k.sound.fair i x stored).own_id)
              (lookup-insert_self x.id (cancelled x) t.auction.exits),
        )
