-- ===== src/Tests/Bidding.antt =====
-- Bids on the fixture, with a second node that has capital and terms.
use stellar_exit_contracts.Auction.Discount.{discount_exact, place_bid_in_terms}
use stellar_exit_contracts.State.Vault.{bps_denominator, min_backing_age}
use stellar_exit_contracts.Prelude.{ℕ, ◌+◌, ◌*◌, ◌-◌, ◌≤◌, ◌↔◌, true}
use stellar_exit_contracts.Tests.Fixture.{table_chain, by, world, terms_one, node_one}
use stellar_exit_contracts.Tests.Sale.{exit_seven, world_seven, world-IsSound}
use stellar_exit_contracts.Auction.Refusing.{refused_bid_tells}
use stellar_exit_contracts.State.Codes.{code, vault_code}
use stellar_exit_contracts.State.Errors.{Error, VaultError}
use stellar_exit_contracts.State.Refusals.{Contract, issuer}
use stellar_exit_contracts.Auction.Bids.{place_bid}
use stellar_exit_contracts.Auction.Storage.{discount_bps, vault_commit, vault_release}
use stellar_exit_contracts.Auction.Exits.{IsSound}
use stellar_exit_contracts.Auction.Outbidding.{locked, unlocked, outbidding_accounts}
use stellar_exit_contracts.Vault.Hooks.{commit, release}
use stellar_exit_contracts.State.Vault.{Appetite, Node}
use stellar_exit_contracts.Host.Chain.{Address, World}
use stellar_exit_contracts.Host.Call.{Result, ok, err}
use stellar_exit_contracts.Prelude.{◌≡◌, ◌≢◌, refl, some, true, ◌∷◌, [], arith}
use stellar_exit_contracts.Prelude.Int.{◌<ℤ◌, as_u32, pos, ◌≤ℤ◌, ◌-ℤ◌, ◌+ℤ◌, ◌*ℤ◌, quot, fits}
use stellar_exit_contracts.Prelude.Dict.{lookup, insert, update₂}

abbrev after : {A : Type 0} → Result (A × World table_chain) → World table_chain
after (ok (_, w)) = w
after (err x) = world

abbrev node_two : Node
node_two = record { deposited = pos 1000; committed = pos 0; filled = pos 0; joined_at = 0 }

abbrev terms_two : Appetite
terms_two = record terms_one { exposure = pos 0 }

-- A second node has capital and terms, and bids 110.
abbrev contested : World table_chain
contested = record world {
  vault = record (world.vault) {
    nodes = (1, node_one) ∷ (2, node_two) ∷ [];
    appetites = update₂ 2 20 (some terms_two) world.vault.appetites;
  };
}

abbrev outbid_world : World table_chain
outbid_world = after (place_bid (by 2 103 4100) 2 7 (pos 110) contested)

outbidding : place_bid (by 2 103 4100) 2 7 (pos 110) contested ≡ ok (tt, outbid_world)
unfolding place_bid discount_bps vault_commit vault_release commit release lookup insert ◌-ℤ◌ ◌+ℤ◌
    ◌*ℤ◌ quot fits as_u32
outbidding = refl

outbidding_accounts_example :
    (pos 100 <ℤ pos 110)
    × (lookup 2 outbid_world.vault.nodes ≡ some (locked node_two (pos 110)))
    × (lookup 1 outbid_world.vault.nodes ≡ some (unlocked node_one (pos 100)))
    × ((b : Address)
        → b ≢ 2
        → b ≢ 1
        → lookup b outbid_world.vault.nodes ≡ lookup b contested.vault.nodes)
unfolding lookup
outbidding_accounts_example =
    outbidding_accounts (by 2 103 4100) 2 1 7 (pos 110) contested outbid_world exit_seven node_two
      node_one outbidding refl refl (λ h. omega (arith, h)) refl refl

contested-IsSound : IsSound contested
contested-IsSound = record { fair = world-IsSound.fair; unopened = world-IsSound.unopened }

place_bid_in_terms_example :
    (terms_two.active ≡ true)
    × (terms_two.backed_at + min_backing_age ≤ 4100)
    × (terms_two.min_discount_bps * 120 ≤ (120 - 110) * bps_denominator)
    × (terms_two.exposure +ℤ pos 110 ≤ℤ terms_two.max_exposure)
place_bid_in_terms_example =
    place_bid_in_terms (by 2 103 4100) 2 7 (pos 110) contested outbid_world exit_seven terms_two
      contested-IsSound world_seven refl outbidding

discount_exact_example :
    (discount : ℕ) × (discount_bps {c = table_chain} (pos 120) (pos 110) contested
      ≡ ok (discount, contested))
    × ((floor : ℕ) → (floor ≤ discount) ↔ (floor * 120 ≤ (120 - 110) * bps_denominator))
unfolding fits
discount_exact_example =
    discount_exact (pos 120) (pos 110) contested (omega arith) (omega arith) refl

-- Node 2 has only just declared its terms.
abbrev young : World table_chain
young = record contested {
  vault = record (contested.vault) {
    appetites = update₂ 2 20 (some (record terms_two { backed_at = 4000 })) world.vault.appetites;
  };
}

-- The refusal that DEPLOYMENTS.md tells of, `Error(Contract, #24)`.
refused_bid_tells_example :
    (place_bid (by 2 103 4100) 2 7 (pos 110) young ≡ err (Error.vault VaultError.backing_too_young))
    × ((other : Error) → code other ≡ some 24 → other ≡ Error.vault VaultError.backing_too_young)
    × (issuer 24 ≡ some Contract.vault)
unfolding discount_bps commit code vault_code lookup ◌-ℤ◌ ◌*ℤ◌ quot fits as_u32
refused_bid_tells_example =
    refused_bid_tells (by 2 103 4100) 2 7 (pos 110) 833 young
      (record { config = _; exit = exit_seven; configured = refl; stored = world_seven })
      (Error.vault VaultError.backing_too_young) 24 refl refl refl (λ h. omega arith) (omega arith)
      (omega arith) refl refl refl
