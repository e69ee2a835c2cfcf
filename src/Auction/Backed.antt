-- ===== src/Auction/Backed.antt =====
-- The bidder of an exit (contracts/exit_auction/src/lib.rs) has terms for its asset in the vault
-- (contracts/lp_vault/src/contract.rs), which a payment and a release look up.
pub mod Calls
use stellar_exit_contracts.Auction.Storage.{release_prev, vault_commit, router_settle}
use stellar_exit_contracts.Auction.Frame.{
  vault_commit-Committed, vault_release-Released, router_settle-Settled,
}
use stellar_exit_contracts.Router.{pay_fee}
use stellar_exit_contracts.Router.Effects.{vault_pay_out-PaidOut}
use stellar_exit_contracts.Router.Payment.{pay_fee-cases}
use stellar_exit_contracts.State.Auction.{Config, Exit}
use stellar_exit_contracts.Host.Chain.{Address, Env, Chain, World}
use stellar_exit_contracts.Host.Call.{ok}
use stellar_exit_contracts.Prelude.{
  ℕ, ◌≡◌, inl, inr, true, Option, some, none, is_some, arith, Bool-cases, ◌==◌,
}
use stellar_exit_contracts.Prelude.Int.{ℤ}
use stellar_exit_contracts.Prelude.Dict.{lookup, insert, lookup-insert}

module _ {c : Chain} where
  -- Whoever bids on an exit, or won it, has terms.
  abbrev pub HasTerms : World c → Type 0
  HasTerms w =
      (i : ℕ) (x : Exit) (node : Address)
      → lookup i w.auction.exits ≡ some x
      → x.best_node ≡ some node
      → is_some (w.vault.appetites node x.asset) ≡ true

  -- Terms change, but are never taken away.
  abbrev pub KeepsTerms : World c → World c → Type 0
  KeepsTerms w w' =
      (node asset : Address)
      → is_some (w.vault.appetites node asset) ≡ true
      → is_some (w'.vault.appetites node asset) ≡ true

  pub insert-HasTerms :
      (w w' : World c) (k : ℕ) (new : Exit)
      → HasTerms w
      → KeepsTerms w w'
      → w'.auction.exits ≡ insert k new w.auction.exits
      → ((node : Address)
          → new.best_node ≡ some node
          → is_some (w'.vault.appetites node new.asset) ≡ true)
      → HasTerms w'
  insert-HasTerms w w' k new has keeps exits own i x node h bidder = elim (Bool-cases (k == i)) [
    | inl same ↦
        ground (arith, exits, lookup-insert i k new w.auction.exits, same, h, bidder, own node)
    | inr other ↦ keeps node x.asset (
        has i x node (ground (arith, exits, lookup-insert i k new w.auction.exits, other, h))
          bidder)
  ]

  module _ (e : Env) (config : Config) (w w' : World c) where
    pub commit-KeepsTerms :
        (node asset : Address) (amount : ℤ) (discount : ℕ)
        → vault_commit e config node asset amount discount w ≡ ok (tt, w')
        → KeepsTerms w w' × (is_some (w'.vault.appetites node asset) ≡ true)
    commit-KeepsTerms node asset amount discount h =
        rw ((vault_commit-Committed e config node asset amount w w' discount h).result)
          (λ m t there. ground (arith, there), ground arith)

    pub release-KeepsTerms :
        (prev : Option Address) (exit : Exit)
        → release_prev prev e config exit w ≡ ok (tt, w')
        → KeepsTerms w w'
    release-KeepsTerms none exit h m t there = ground (arith, h, there)
    release-KeepsTerms (some prev) exit h m t there =
        rw ((vault_release-Released e config prev exit.asset exit.best_usdc w w' h).result)
          (ground (arith, there))

    pub settle-KeepsTerms :
        (exit_id : ℕ) (node : Address) (token_amount usdc_amount : ℤ)
        → router_settle e config exit_id node token_amount usdc_amount w ≡ ok (tt, w')
        → KeepsTerms w w'
    settle-KeepsTerms exit_id node token_amount usdc_amount h m t there =
        let s = router_settle-Settled e config exit_id w w' node token_amount usdc_amount h in
        let p =
          vault_pay_out-PaidOut _ s.config node s.held.asset s.held.seller s.net w s.paid
            s.to_seller in
        rw (s.vault)
          (elim (pay_fee-cases _ s.config node s.held.asset s.paid s.levied s.fee s.to_treasury) [
            | inl (_, q) ↦ rw (q.result) (rw (p.result) there)
            | inr (_, same) ↦ rw same (rw (p.result) there)
          ])
