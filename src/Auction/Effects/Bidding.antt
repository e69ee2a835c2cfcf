-- ===== src/Auction/Effects/Bidding.antt =====
-- What `place_bid` of contracts/exit_auction/src/lib.rs has found and done when it succeeds.
use stellar_exit_contracts.Auction.Effects.{discount_of, discount_bps_lem, Found, Found-cases}
use stellar_exit_contracts.Auction.Effects.Filling.{stored_exit}
use stellar_exit_contracts.Auction.Frame.{vault_commit-OutsideVault, release_prev-OutsideVault}
use stellar_exit_contracts.Auction.Storage.{
  vault_commit, release_prev, discount_bps, is_live, is_taking_bids,
}
use stellar_exit_contracts.Auction.Bids.{place_bid}
use stellar_exit_contracts.Vault.Effects.{IsAuthorized}
use stellar_exit_contracts.State.Auction.{Exit}
use stellar_exit_contracts.State.Events.{Event, AuctionEvent}
use stellar_exit_contracts.Host.Chain.{Address, Env, Chain, World}
use stellar_exit_contracts.Host.Call.{ok, Result-cases}
use stellar_exit_contracts.Prelude.{
  ℕ, ◌≡◌, refl, sym, ◌∙◌, ap, inl, inr, true, false, ◌&&◌, some, ◌∷◌, arith, ltb,
}
use stellar_exit_contracts.Prelude.Int.{ℤ, pos, ◌<ℤ◌}

-- The exit with a new bid on it.
abbrev pub outbid : Address → ℤ → Exit → Exit
outbid node usdc_amount exit = record exit { best_node = some node; best_usdc = usdc_amount }

module _ {c : Chain} (e : Env) (node : Address) (exit_id : ℕ) (usdc_amount : ℤ) where
  -- The vault is asked twice: the new bid is covered first (`covered`), and then the old one let go
  -- (`freed`).
  pub record Bid (w w' : World c) : Type 0 where
    pub found : Found exit_id w
    pub open found use *
    pub covered : World c
    pub freed : World c
    pub signed : IsAuthorized e node
    pub live : is_live exit.status ≡ true
    pub in_time : (is_taking_bids exit.status && ltb exit.closes_at e.timestamp) ≡ false
    pub positive : pos 0 <ℤ usdc_amount
    pub higher : exit.best_usdc <ℤ usdc_amount
    pub to_cover :
        vault_commit e config node exit.asset usdc_amount
          (discount_of exit.reference_usdc usdc_amount)
          w
        ≡ ok (tt, covered)
    pub to_free : release_prev exit.best_node e config exit covered ≡ ok (tt, freed)
    pub result : w' ≡ record (stored_exit (outbid node usdc_amount exit) freed) {
      events =
          Event.auction (
            AuctionEvent.bid_placed exit.asset exit_id node usdc_amount
              (discount_of exit.reference_usdc usdc_amount)
              exit.best_node)
          ∷ freed.events;
    }

  priced-Bid :
      (w w' : World c) (f : Found exit_id w) (discount : ℕ)
      → place_bid e node exit_id usdc_amount w ≡ ok (tt, w')
      → discount_bps f.exit.reference_usdc usdc_amount w ≡ ok (discount, w)
      → discount ≡ discount_of f.exit.reference_usdc usdc_amount
      → Bid w w'
  unfolding place_bid
  priced-Bid w w' f discount h priced same =
      elim (Result-cases (vault_commit e f.config node f.exit.asset usdc_amount discount w)) [
        | inl (x, refused) ↦ absurd (ground (arith, f.configured, f.stored))
        | inr (_, covered, to_cover) ↦
            elim (Result-cases (release_prev f.exit.best_node e f.config f.exit covered)) [
              | inl (x, refused) ↦ absurd (ground (arith, f.configured, f.stored))
              | inr (_, freed, to_free) ↦ record {
                found = f;
                covered = covered;
                freed = freed;
                signed = ground (arith, f.configured, f.stored);
                live = ground (arith, f.configured, f.stored);
                in_time = ground (arith, f.configured, f.stored);
                positive = ground (arith, f.configured, f.stored);
                higher = ground (arith, f.configured, f.stored);
                to_cover = rw (sym same) to_cover;
                to_free = to_free;
                result = ground (arith, f.configured, f.stored);
              }
            ]
      ]

  pub place_bid-Bid :
      (w w' : World c) → place_bid e node exit_id usdc_amount w ≡ ok (tt, w') → Bid w w'
  unfolding place_bid
  place_bid-Bid w w' h = elim (Found-cases exit_id w) [
    | inl (inl unknown) ↦ absurd (ground arith)
    | inl (inr (exit, stored, missing)) ↦ absurd (ground arith)
    | inr f ↦ elim (Result-cases (discount_bps f.exit.reference_usdc usdc_amount w)) [
      | inl (x, refused) ↦ absurd (ground (arith, f.configured, f.stored))
      | inr (discount, v, priced) ↦
          let (same, kept) =
            discount_bps_lem f.exit.reference_usdc usdc_amount w v discount priced in
          priced-Bid w w' f discount h (priced ∙ ap (λ u. ok (discount, u)) kept) same
    ]
  ]

  pub Bid-OutsideVault :
      {w w' : World c}
      → (b : Bid w w')
      → (w'.auction ≡ (stored_exit (outbid node usdc_amount b.exit) w).auction)
        × (w'.router ≡ w.router)
        × (w'.queue ≡ w.queue)
  Bid-OutsideVault {w} {w'} b =
      let v =
        vault_commit-OutsideVault e b.config node b.exit.asset usdc_amount w b.covered _
          b.to_cover in
      let u =
        release_prev-OutsideVault b.exit.best_node e b.config b.exit b.covered b.freed b.to_free in
      (
        rw (b.result, u.auction, v.auction) refl,
        rw (b.result, u.router, v.router) refl,
        rw (b.result, u.queue, v.queue) refl,
      )
