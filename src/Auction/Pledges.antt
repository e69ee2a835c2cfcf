-- ===== src/Auction/Pledges.antt =====
-- The standing bids of contracts/exit_auction/src/lib.rs against the committed capital of
-- contracts/lp_vault/src/contract.rs: what is locked for a node is what it has bid and not yet paid.
pub mod Steps
pub mod Calls
use stellar_exit_contracts.Auction.Storage.{is_live, release_prev, vault_commit, router_settle}
use stellar_exit_contracts.Auction.Frame.{
  vault_commit-Committed, vault_release-Released, router_settle-Settled,
}
use stellar_exit_contracts.Router
use stellar_exit_contracts.Router.Effects.{vault_pay_out-PaidOut}
use stellar_exit_contracts.Router.Payment.{charged, settle_charges}
use stellar_exit_contracts.State.Auction.{Config, Exit}
use stellar_exit_contracts.State.Vault.{Node}
use stellar_exit_contracts.Host.Chain.{Address, Env, Chain, World, enter}
use stellar_exit_contracts.Host.Call.{ok, call_contract-eq-ok}
use stellar_exit_contracts.Prelude.{
  ℕ, ◌≡◌, sym, subst, ap, ◌∙◌, inl, inr, Bool, false, ◌&&◌, Option, some, none, arith, ◌==◌,
  Bool-cases, ==→eq, ==_refl, if◌then◌else◌,
}
use stellar_exit_contracts.Prelude.Int.{ℤ, pos, pos_part, ◌+ℤ◌, ◌-ℤ◌}
use stellar_exit_contracts.Prelude.Dict.{Dict, lookup, insert, lookup-insert, total}

-- The standing bid is the node's.
abbrev pub is_bidder : Option Address → Address → Bool
is_bidder none node = false
is_bidder (some bidder) node = bidder == node

-- What the node owes if the exit is filled.
abbrev pub pledge : Address → Exit → ℕ
pledge node x = if is_live x.status && is_bidder x.best_node node then pos_part x.best_usdc else 0

abbrev pub committed_of : Option Node → ℤ
committed_of none = pos 0
committed_of (some n) = n.committed

abbrev pub pledged : Address → Dict Exit → ℕ
pledged node exits = total (pledge node) exits

module _ {c : Chain} where
  -- What the vault has locked for a node.
  abbrev pub locked_for : Address → World c → ℤ
  locked_for node w = committed_of (lookup node w.vault.nodes)

  -- It is the sum of the node's standing bids on live exits, for every node.
  abbrev pub IsPledged : World c → Type 0
  IsPledged w = (node : Address) → locked_for node w ≡ pos (pledged node w.auction.exits)

-- A write of one account.
pub committed_of-insert :
    (k m : Address) (n : Node) (nodes : Dict Node)
    → committed_of (lookup m (insert k n nodes))
      ≡ (if k == m then n.committed else committed_of (lookup m nodes))
committed_of-insert k m n nodes = ground (arith, lookup-insert m k n nodes)

module _ {c : Chain} where
  -- A commitment locks so much more for its node.
  pub commit_locks :
      (e : Env) (config : Config) (node asset : Address) (amount : ℤ) (discount : ℕ)
      (w w' : World c)
      → vault_commit e config node asset amount discount w ≡ ok (tt, w')
      → (m : Address)
      → locked_for m w' ≡ (if node == m then locked_for m w +ℤ amount else locked_for m w)
  commit_locks e config node asset amount discount w w' h m =
      let f = vault_commit-Committed e config node asset amount w w' discount h in
      rw (f.result) (
        ground (
          arith,
          f.known,
          committed_of-insert node m (record (f.state) { committed = f.state.committed +ℤ amount })
              w.vault.nodes,
        ))

  -- A release lets so much go.
  pub release_unlocks :
      (best_node : Option Address) (e : Env) (config : Config) (exit : Exit) (w w' : World c)
      → release_prev best_node e config exit w ≡ ok (tt, w')
      → (m : Address)
      → locked_for m w'
        ≡ (if is_bidder best_node m then locked_for m w -ℤ exit.best_usdc else locked_for m w)
  release_unlocks none e config exit w w' h m = ground (arith, h)
  release_unlocks (some prev) e config exit w w' h m =
      let f = vault_release-Released e config prev exit.asset exit.best_usdc w w' h in
      rw (f.result) (
        ground (
          arith,
          f.known,
          committed_of-insert prev m
              (record (f.state) { committed = f.state.committed -ℤ exit.best_usdc }) w.vault.nodes,
        ))

  -- A settlement uses up so much of what is locked for the node that pays.
  pub settle_unlocks :
      (e : Env) (config : Config) (exit_id : ℕ) (node : Address) (token_amount usdc_amount : ℤ)
      (w w' : World c)
      → router_settle e config exit_id node token_amount usdc_amount w ≡ ok (tt, w')
      → (m : Address)
      → locked_for m w' ≡ (if node == m then locked_for m w -ℤ usdc_amount else locked_for m w)
  unfolding router_settle charged
  settle_unlocks e config exit_id node token_amount usdc_amount w w' h m =
      let s = router_settle-Settled e config exit_id w w' node token_amount usdc_amount h in
      let p =
        vault_pay_out-PaidOut _ s.config node s.held.asset s.held.seller s.net w s.paid
          s.to_seller in
      let settled =
        call_contract-eq-ok e (Chain.router_address c) config.router
          (λ inner. Router.settle inner exit_id node token_amount usdc_amount) w w' h in
      let (own, others) =
        settle_charges (enter e (Chain.router_address c)) exit_id node token_amount usdc_amount w w'
          p.state settled p.known in
      elim (Bool-cases (node == m)) [
        | inl same ↦
            let key = ==→eq node m same in
            rw same (
              subst (λ a. locked_for a w' ≡ locked_for a w -ℤ usdc_amount) key
                (ap committed_of own ∙ ap (λ o. committed_of o -ℤ usdc_amount) (sym p.known)))
        | inr other ↦
            rw other (ap committed_of (others m (λ q. ground (arith, q, other, ==_refl node))))
      ]
