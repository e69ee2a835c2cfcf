-- ===== src/Auction/Outbidding.antt =====
-- What a bid does to the accounts of the vault (contracts/exit_auction/src/lib.rs, `place_bid`).
use stellar_exit_contracts.Auction.Storage.{vault_commit, release_prev}
use stellar_exit_contracts.Auction.Bids.{place_bid}
use stellar_exit_contracts.Auction.Effects.Bidding.{place_bid-Bid}
use stellar_exit_contracts.Auction.Exits.{same_exit}
use stellar_exit_contracts.Auction.Frame.{vault_commit-Committed, vault_release-Released}
use stellar_exit_contracts.State.Auction.{Config, Exit}
use stellar_exit_contracts.State.Vault.{Node}
use stellar_exit_contracts.Host.Chain.{Address, Env, Chain, World}
use stellar_exit_contracts.Host.Call.{ok}
use stellar_exit_contracts.Prelude.{
  ℕ, ◌≡◌, ◌≢◌, refl, sym, subst, ap, ◌∙◌, Option, some, none, arith, ==_refl,
}
use stellar_exit_contracts.Prelude.Int.{ℤ, ◌+ℤ◌, ◌-ℤ◌, ◌<ℤ◌}
use stellar_exit_contracts.Prelude.Dict.{lookup, lookup-insert}

-- The account with so much more, or less, of it locked.
abbrev pub locked : Node → ℤ → Node
locked n amount = record n { committed = n.committed +ℤ amount }

abbrev pub unlocked : Node → ℤ → Node
unlocked n amount = record n { committed = n.committed -ℤ amount }

module _ {c : Chain} where
  committed_accounts :
      (e : Env) (config : Config) (node asset : Address) (amount : ℤ) (discount : ℕ)
      (w w' : World c) (n : Node)
      → vault_commit e config node asset amount discount w ≡ ok (tt, w')
      → lookup node w.vault.nodes ≡ some n
      → (lookup node w'.vault.nodes ≡ some (locked n amount))
        × ((b : Address) → b ≢ node → lookup b w'.vault.nodes ≡ lookup b w.vault.nodes)
  committed_accounts e config node asset amount discount w w' n h known =
      let f = vault_commit-Committed e config node asset amount w w' discount h in
      (
        rw (f.result) (
            ground (
              arith,
              f.known,
              known,
              lookup-insert node node (locked f.state amount) w.vault.nodes,
              ==_refl node,
            )),
        λ b other.
            rw (f.result)
              (ground (arith, other, lookup-insert b node (locked f.state amount) w.vault.nodes)),
      )

  released_accounts :
      (best_node : Option Address) (prev : Address) (e : Env) (config : Config) (exit : Exit)
      (w w' : World c) (p : Node)
      → best_node ≡ some prev
      → release_prev best_node e config exit w ≡ ok (tt, w')
      → lookup prev w.vault.nodes ≡ some p
      → (lookup prev w'.vault.nodes ≡ some (unlocked p exit.best_usdc))
        × ((b : Address) → b ≢ prev → lookup b w'.vault.nodes ≡ lookup b w.vault.nodes)
  released_accounts none prev e config exit w w' p bidder h known = absurd cc
  released_accounts (some node) prev e config exit w w' p bidder h known =
      let f = vault_release-Released e config node exit.asset exit.best_usdc w w' h in
      (
        rw (f.result) (
            ground (
              arith,
              bidder,
              f.known,
              known,
              lookup-insert prev node (unlocked f.state exit.best_usdc) w.vault.nodes,
              ==_refl prev,
            )),
        λ b other. rw (f.result) (
            ground (
              arith,
              bidder,
              other,
              lookup-insert b node (unlocked f.state exit.best_usdc) w.vault.nodes,
            )),
      )

  -- A bid that takes over from another node's is strictly higher, locks exactly what it offers on the
  -- new bidder's account, unlocks exactly the old bid on the other's, and changes no third account.
  pub outbidding_accounts :
      (e : Env) (node prev : Address) (i : ℕ) (usdc_amount : ℤ) (w w' : World c) (x : Exit)
      (n p : Node)
      → place_bid e node i usdc_amount w ≡ ok (tt, w')
      → lookup i w.auction.exits ≡ some x
      → x.best_node ≡ some prev
      → prev ≢ node
      → lookup node w.vault.nodes ≡ some n
      → lookup prev w.vault.nodes ≡ some p
      → (x.best_usdc <ℤ usdc_amount)
        × (lookup node w'.vault.nodes ≡ some (locked n usdc_amount))
        × (lookup prev w'.vault.nodes ≡ some (unlocked p x.best_usdc))
        × ((b : Address) → b ≢ node → b ≢ prev → lookup b w'.vault.nodes ≡ lookup b w.vault.nodes)
  outbidding_accounts e node prev i usdc_amount w w' x n p h stored bidder apart known before =
      let b = place_bid-Bid e node i usdc_amount w w' h in
      let same = same_exit i i b.exit x w.auction.exits refl b.stored stored in
      let (gains, others) =
        committed_accounts e b.config node b.exit.asset usdc_amount _ w b.covered n b.to_cover
          known in
      let (frees, rest) =
        released_accounts x.best_node prev e b.config x b.covered b.freed p bidder
          (subst (λ (v : Exit). release_prev v.best_node e b.config v b.covered ≡ ok (tt, b.freed))
            same b.to_free)
          (others prev apart ∙ before) in
      let vault = ap (λ (u : World c). u.vault.nodes) b.result in
      (
        subst (λ (v : Exit). v.best_usdc <ℤ usdc_amount) same b.higher,
        ap (lookup node) vault ∙ rest node (λ q. apart (sym q)) ∙ gains,
        ap (lookup prev) vault ∙ frees,
        λ a one two. ap (lookup a) vault ∙ rest a two ∙ others a one,
      )
