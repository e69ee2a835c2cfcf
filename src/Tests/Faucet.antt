-- ===== src/Tests/Faucet.antt =====
-- The faucet, run on the fixture, and its theorems there.
use stellar_exit_contracts.Tests.Fixture.{table_chain, by, world}
use stellar_exit_contracts.Faucet.{claim, next_claim, saturating_add}
use stellar_exit_contracts.Faucet.Cooldown.{claim_waits, next_claim_exact}
use stellar_exit_contracts.State.Faucet as FaucetState
use stellar_exit_contracts.State.Errors.{Error, FaucetError}
use stellar_exit_contracts.Host.Chain.{World}
use stellar_exit_contracts.Host.Call.{Result, ok, err}
use stellar_exit_contracts.Prelude.{
  ℕ, ◌≤◌, ◌≡◌, ◌≢◌, ◌↔◌, refl, some, none, ◌∷◌, [], arith, ◌==◌, if◌then◌else◌,
}
use stellar_exit_contracts.Prelude.Int.{pos}

abbrev after : {A : Type 0} → Result (A × World table_chain) → World table_chain
after (ok (_, w)) = w
after (err x) = world

abbrev tap_config : FaucetState.Config
tap_config = record { admin = 9; cooldown = 3600 }

-- Token 20 drips 5 at a time, once an hour.
abbrev tap : World table_chain
tap = record world {
  faucet = record {
    config = some tap_config;
    drips = λ token. if token == 20 then some (pos 5) else none;
    tokens = some (20 ∷ []);
    last = λ who token. none;
  };
}

abbrev dripped : World table_chain
dripped = after (claim (by 4 104 1000) 4 20 tap)

claiming : claim (by 4 104 1000) 4 20 tap ≡ ok (pos 5, dripped)
unfolding claim saturating_add
claiming = refl

claim_waits_example : claim (by 4 104 4599) 4 20 dripped ≡ err (Error.faucet FaucetError.too_soon)
claim_waits_example =
    claim_waits (by 4 104 1000) (by 4 104 4599) 4 20 (pos 5) tap dripped tap_config claiming refl
      (omega arith) (omega arith) (omega arith) refl

-- An hour has not gone by.
next_claim_exact_example :
    (at : ℕ) × (next_claim (by 4 104 2000) 4 20 dripped ≡ ok (at, dripped))
    × ((at ≤ 4600) ↔ (claim (by 4 104 4600) 4 20 dripped ≢ err (Error.faucet FaucetError.too_soon)))
    × ((at ≡ 0) ↔ (at ≤ 2000))
unfolding claim
next_claim_exact_example =
    next_claim_exact (by 4 104 2000) (by 4 104 4600) 4 20 dripped tap_config refl (omega arith) refl
      (omega arith)
