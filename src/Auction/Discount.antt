-- ===== src/Auction/Discount.antt =====
-- The discount that a bid makes (contracts/exit_auction/src/lib.rs, `discount_bps`), and the floor that
-- a node sets for it (contracts/lp_vault/src/contract.rs, `commit`).
use stellar_exit_contracts.Auction.Storage.{discount_bps}
use stellar_exit_contracts.Auction.Effects.{discount_of}
use stellar_exit_contracts.Auction.Effects.Bidding.{place_bid-Bid}
use stellar_exit_contracts.Auction.Frame.{vault_commit-Committed}
use stellar_exit_contracts.Auction.Bids.{place_bid}
use stellar_exit_contracts.Auction.Exits.{IsSound}
use stellar_exit_contracts.State.Auction.{Exit}
use stellar_exit_contracts.State.Vault.{Appetite, bps_denominator, min_backing_age}
use stellar_exit_contracts.Prelude.Dict.{lookup}
use stellar_exit_contracts.Host.Chain.{Address, Env, Chain, World}
use stellar_exit_contracts.Host.Call.{ok}
use stellar_exit_contracts.Prelude.{
  ℕ, suc, zero, ◌+◌, ◌-◌, ◌*◌, ◌/◌, ◌%◌, ◌^◌, ◌≤◌, ◌<◌, ◌≡◌, ◌↔◌, inl, inr, true, Bool-cases, leb,
  arith, some, ap, sym, subst, ◌∙◌,
}
use stellar_exit_contracts.Prelude.Int.{
  ℤ, pos, negsuc, pos_part, ◌-ℤ◌, ◌+ℤ◌, ◌≤ℤ◌, ◌*ℤ◌, quot, as_u32, ◌<ℤ◌, fits,
}
use native.Mathlib.Nat.{le-div_iff_mul-le, div-lt_iff_lt-mul}

-- The rate of the gap, which is never cut off as a `u32`.
abbrev rate : ℕ → ℕ → ℕ
rate r b = (suc r - b) * bps_denominator / suc r

rate-lt : (r b : ℕ) → rate r b < bps_denominator + 1
rate-lt r b =
    (div-lt_iff_lt-mul {k = suc r} {x = (suc r - b) * bps_denominator} {y = bps_denominator + 1}
        (omega arith)).1
      (omega arith)

le-rate_iff :
    (r b floor : ℕ) → (floor ≤ rate r b % 2 ^ 32) ↔ (floor * suc r ≤ (suc r - b) * bps_denominator)
le-rate_iff r b floor =
    let bound = rate-lt r b in
    let exact =
      le-div_iff_mul-le {k = suc r} {x = floor} {y = (suc r - b) * bps_denominator} (omega arith) in
    (λ h. exact.0 (omega (arith, bound, h)), λ h. let q = exact.1 h in omega (arith, bound, q))

none-le_iff : (r floor : ℕ) → (floor ≤ 0) ↔ (floor * suc r ≤ 0)
none-le_iff r floor = (λ h. grind (arith, h), λ h. grind (arith, h))

-- A bid meets a floor exactly if its gap to the reference is that part of the reference.
pub floor_iff :
    (reference_usdc usdc_amount : ℤ) (floor : ℕ)
    → pos 0 <ℤ reference_usdc
    → pos 0 <ℤ usdc_amount
    → (floor ≤ discount_of reference_usdc usdc_amount) ↔ (
        floor * pos_part reference_usdc
        ≤ (pos_part reference_usdc - pos_part usdc_amount) * bps_denominator)
unfolding discount_of ◌-ℤ◌ ◌*ℤ◌ quot as_u32
floor_iff (pos zero) b floor r_pos b_pos = absurd (omega (arith, r_pos))
floor_iff (negsuc r) b floor r_pos b_pos = absurd (omega (arith, r_pos))
floor_iff (pos (suc r)) (negsuc b) floor r_pos b_pos = absurd (omega (arith, b_pos))
floor_iff (pos (suc r)) (pos b) floor r_pos b_pos = elim (Bool-cases (leb (suc r) b)) [
  | inl high ↦ ground (arith, none-le_iff r floor)
  | inr low ↦ ground (arith, le-rate_iff r b floor)
]

scaled-le : (r b : ℕ) → (suc r - b) * bps_denominator ≤ suc r * bps_denominator
scaled-le r b = omega arith

discount_answers :
    {c : Chain} (reference_usdc usdc_amount : ℤ) (w : World c)
    → pos 0 <ℤ reference_usdc
    → pos 0 <ℤ usdc_amount
    → fits (pos (pos_part reference_usdc * bps_denominator)) ≡ true
    → discount_bps reference_usdc usdc_amount w ≡ ok (discount_of reference_usdc usdc_amount, w)
unfolding discount_of discount_bps ◌-ℤ◌ ◌*ℤ◌ quot fits
discount_answers (pos zero) b w r_pos b_pos scaled = absurd (omega (arith, r_pos))
discount_answers (negsuc r) b w r_pos b_pos scaled = absurd (omega (arith, r_pos))
discount_answers (pos (suc r)) (negsuc b) w r_pos b_pos scaled = absurd (omega (arith, b_pos))
discount_answers (pos (suc r)) (pos b) w r_pos b_pos scaled = elim (Bool-cases (leb (suc r) b)) [
  | inl high ↦ ground (arith, high)
  | inr low ↦ ground (arith, low, rate-lt r b, scaled-le r b)
]

-- The discount of a positive bid on a positive reference is answered, if the scaled reference is in the
-- range of `i128`, and the answer meets a floor exactly if the bid stays below the reference by at least that
-- many ten-thousandths of it; at or above the reference it meets none but zero.
pub discount_exact :
    {c : Chain} (reference_usdc usdc_amount : ℤ) (w : World c)
    → pos 0 <ℤ reference_usdc
    → pos 0 <ℤ usdc_amount
    → fits (pos (pos_part reference_usdc * bps_denominator)) ≡ true
    → (discount : ℕ) × (discount_bps reference_usdc usdc_amount w ≡ ok (discount, w))
      × ((floor : ℕ)
          → (floor ≤ discount) ↔ (
              floor * pos_part reference_usdc
              ≤ (pos_part reference_usdc - pos_part usdc_amount) * bps_denominator))
discount_exact reference_usdc usdc_amount w r_pos b_pos scaled = (
  discount_of reference_usdc usdc_amount,
  discount_answers reference_usdc usdc_amount w r_pos b_pos scaled,
  λ floor. floor_iff reference_usdc usdc_amount floor r_pos b_pos,
)

-- A bid that is taken on a sound table is within the terms that its node has declared for the asset:
-- they are active and have aged, the bid stays below the reference by at least the floor, in
-- ten-thousandths of the reference, and the exposure stays within its ceiling with it.
pub place_bid_in_terms :
    {c : Chain} (e : Env) (node : Address) (i : ℕ) (usdc_amount : ℤ) (w w' : World c) (exit : Exit)
    (terms : Appetite)
    → IsSound w
    → lookup i w.auction.exits ≡ some exit
    → w.vault.appetites node exit.asset ≡ some terms
    → place_bid e node i usdc_amount w ≡ ok (tt, w')
    → (terms.active ≡ true)
      × (terms.backed_at + min_backing_age ≤ e.timestamp)
      × (terms.min_discount_bps * pos_part exit.reference_usdc
          ≤ (pos_part exit.reference_usdc - pos_part usdc_amount) * bps_denominator)
      × (terms.exposure +ℤ usdc_amount ≤ℤ terms.max_exposure)
place_bid_in_terms e node i usdc_amount w w' exit terms s stored declared h =
    let b = place_bid-Bid e node i usdc_amount w w' h in
    let f =
      vault_commit-Committed e b.config node b.exit.asset usdc_amount w b.covered _ b.to_cover in
    let same : b.exit ≡ exit = ground (arith, stored, b.stored) in
    let known : w.vault.appetites node b.exit.asset ≡ some terms = rw same declared in
    let own : f.appetite ≡ terms = ground (arith, known, f.declared) in
    let fair = s.fair i exit stored in
    (
      ap (λ (t : Appetite). t.active) (sym own) ∙ f.active,
      subst (λ (t : Appetite). t.backed_at + min_backing_age ≤ e.timestamp) own f.aged,
      (floor_iff exit.reference_usdc usdc_amount terms.min_discount_bps fair.reference_positive
            b.positive).0
          (subst (λ (x : Exit). terms.min_discount_bps ≤ discount_of x.reference_usdc usdc_amount)
            same
            (subst
              (λ (t : Appetite). t.min_discount_bps ≤ discount_of b.exit.reference_usdc usdc_amount)
              own f.loose)),
      subst (λ (t : Appetite). t.exposure +ℤ usdc_amount ≤ℤ t.max_exposure) own f.headroom,
    )
