-- ===== src/Router/Fees.antt =====
-- The protocol fee (contracts/settlement_router/src/lib.rs, `settle` and `quote_net`).
use stellar_exit_contracts.Router.{split_fee}
use stellar_exit_contracts.State.Router.{Config, max_protocol_fee_bps}
use stellar_exit_contracts.State.Vault.{bps_denominator}
use stellar_exit_contracts.Host.Chain.{Chain, World}
use stellar_exit_contracts.Host.Call.{ok}
use stellar_exit_contracts.Prelude.{ℕ, ◌+◌, ◌*◌, ◌≤◌, ◌<◌, ◌≡◌, refl, true, arith}
use stellar_exit_contracts.Prelude.Int.{
  ℤ, pos, negsuc, pos_part, ◌-ℤ◌, ◌*ℤ◌, quot, ◌≤ℤ◌, ◌<ℤ◌, fits, fits_between, fits_zero, int_laws,
}

-- The fee that the configuration puts on a gross amount.
unfoldable pub fee_of : Config → ℤ → ℤ
fee_of config gross = quot (gross *ℤ pos config.protocol_fee_bps) (pos bps_denominator)

module _ {c : Chain} (config : Config) (gross : ℤ) (w : World c) where
  pub split_fee_lem :
      (fee net : ℤ) (w' : World c)
      → split_fee config gross w ≡ ok ((fee, net), w')
      → (fee ≡ fee_of config gross) × (net ≡ gross -ℤ fee) × (w' ≡ w)
  unfolding split_fee fee_of
  split_fee_lem fee net w' h = ground arith

scaled-le : (g b : ℕ) → b ≤ max_protocol_fee_bps → g * b ≤ g * max_protocol_fee_bps
scaled-le g b h = grind arith

pub fee_of_bounds :
    (config : Config) (gross : ℤ)
    → config.protocol_fee_bps ≤ max_protocol_fee_bps
    → pos 0 <ℤ gross
    → (pos 0 ≤ℤ fee_of config gross)
      × (pos_part (fee_of config gross) * bps_denominator
          ≤ pos_part gross * config.protocol_fee_bps)
      × (pos_part gross * config.protocol_fee_bps
          < (pos_part (fee_of config gross) + 1) * bps_denominator)
      × (pos_part (fee_of config gross) * 20 ≤ pos_part gross)
      × (pos 0 <ℤ gross -ℤ fee_of config gross)
unfolding fee_of ◌*ℤ◌ quot ◌-ℤ◌
fee_of_bounds config (pos g) ceiling p =
    let capped = scaled-le g config.protocol_fee_bps ceiling in
    (omega arith, omega arith, omega arith, omega (arith, capped), ground (arith, capped))
fee_of_bounds config (negsuc g) ceiling p = absurd (omega arith)

module _ {c : Chain} where
  -- The fee and the seller's part of a bid.
  pub split_fee_succeeds :
      (config : Config) (gross : ℤ) (w : World c)
      → config.protocol_fee_bps ≤ max_protocol_fee_bps
      → pos 0 <ℤ gross
      → fits gross ≡ true
      → fits (gross *ℤ pos config.protocol_fee_bps) ≡ true
      → split_fee config gross w ≡ ok ((fee_of config gross, gross -ℤ fee_of config gross), w)
  unfolding split_fee fee_of
  split_fee_succeeds config gross w capped positive fit scaled =
      let (nonneg, exact, above, part, left) = fee_of_bounds config gross capped positive in
      ground (
        arith,
        scaled,
        fits_between (pos 0) gross (gross -ℤ fee_of config gross) fits_zero fit
            (omega (arith, left)) (omega (int_laws, nonneg)),
      )

-- Under the ceiling a positive gross amount is split, if it and its product with the rate are in the
-- range of `i128`: the fee is the rate rounded down, neither more nor less, and at most a twentieth of
-- the amount, and the rest goes to the seller and is positive.
pub fee_bounds :
    {c : Chain} (config : Config) (gross : ℤ) (w : World c)
    → config.protocol_fee_bps ≤ max_protocol_fee_bps
    → pos 0 <ℤ gross
    → fits gross ≡ true
    → fits (gross *ℤ pos config.protocol_fee_bps) ≡ true
    → (fee : ℤ) × (net : ℤ) × (split_fee config gross w ≡ ok ((fee, net), w))
      × (pos 0 ≤ℤ fee)
      × (pos_part fee * bps_denominator ≤ pos_part gross * config.protocol_fee_bps)
      × (pos_part gross * config.protocol_fee_bps < (pos_part fee + 1) * bps_denominator)
      × (pos_part fee * 20 ≤ pos_part gross)
      × (net ≡ gross -ℤ fee)
      × (pos 0 <ℤ net)
fee_bounds config gross w capped positive fit scaled =
    let (nonneg, exact, above, part, left) = fee_of_bounds config gross capped positive in
    (
      fee_of config gross,
      gross -ℤ fee_of config gross,
      split_fee_succeeds config gross w capped positive fit scaled,
      nonneg,
      exact,
      above,
      part,
      refl,
      left,
    )
