-- ===== src/Faucet/Cooldown.antt =====
-- How testnet/faucet/src/lib.rs holds claims apart.
use stellar_exit_contracts.Faucet.{claim, next_claim, saturating_add, too_soon, next_after}
use stellar_exit_contracts.State.Faucet.{Config}
use stellar_exit_contracts.State.Errors.{Error, FaucetError}
use stellar_exit_contracts.Vault.Effects.{IsAuthorized}
use stellar_exit_contracts.Host.Chain.{Address, Env, Chain, World, enter}
use stellar_exit_contracts.Host.Call.{ok, err}
use stellar_exit_contracts.Prelude.{
  ℕ, ◌+◌, ◌^◌, ◌<◌, ◌≤◌, ◌≡◌, ◌≢◌, ◌↔◌, false, some, inl, inr, unwrap_or, arith, Option-cases,
  Bool-cases, ==_refl,
}
use stellar_exit_contracts.Prelude.Int.{ℤ, pos, ◌<ℤ◌}

-- The answer of `next_claim` is the first moment from now on at which a claim does not come too soon,
-- and 0 if that moment is now.
next_after_first :
    (last cooldown now later : ℕ)
    → now ≤ later
    → (next_after last cooldown now ≤ later) ↔ (too_soon last cooldown later ≡ false)
next_after_first last cooldown now later h = (λ p. ground (arith, h, p), λ p. ground (arith, h, p))

next_after-eq-zero :
    (last cooldown now : ℕ)
    → (next_after last cooldown now ≡ 0) ↔ (next_after last cooldown now ≤ now)
next_after-eq-zero last cooldown now = (λ h. ground (arith, h), λ h. ground (arith, h))

module _ {c : Chain} where
  -- What a claim that succeeds has found and done.
  record Claimed (e : Env) (to token : Address) (amount : ℤ) (w w' : World c) : Type 0 where
    config : Config
    configured : w.faucet.config ≡ some config
    same_config : w'.faucet.config ≡ some config
    same_drip : w'.faucet.drips ≡ w.faucet.drips
    dripping : amount ≡ unwrap_or (w.faucet.drips token) (pos 0)
    positive : pos 0 <ℤ amount
    noted : w'.faucet.last to token ≡ some e.timestamp

  claim-Claimed :
      (e : Env) (to token : Address) (amount : ℤ) (w w' : World c)
      → claim e to token w ≡ ok (amount, w')
      → Claimed e to token amount w w'
  unfolding claim
  claim-Claimed e to token amount w w' h = elim (Option-cases w.faucet.config) [
    | inl missing ↦ absurd (ground arith)
    | inr (config, configured) ↦
        let drip = unwrap_or (w.faucet.drips token) (pos 0) in
        elim (Option-cases (Chain.mint c (enter e token) token to drip w.ledger)) [
          | inl refused ↦ absurd (ground arith)
          | inr (ledger, minted) ↦ record {
            config = config;
            configured = configured;
            same_config = ground arith;
            same_drip = ground arith;
            dripping = ground arith;
            positive = ground arith;
            noted = ground (arith, ==_refl to, ==_refl token);
          }
        ]
  ]

  -- After a claim at the faucet, one more by the same account for the same token is refused with
  -- `TooSoon` until the cooldown is over, whoever calls, if the account signs, the clock was not
  -- at 0, and the time after the cooldown is in the range of `u64`.
  pub claim_waits :
      (e later : Env) (to token : Address) (amount : ℤ) (w w' : World c) (config : Config)
      → claim e to token w ≡ ok (amount, w')
      → w.faucet.config ≡ some config
      → 0 < e.timestamp
      → e.timestamp + config.cooldown < 2 ^ 64
      → later.timestamp < e.timestamp + config.cooldown
      → IsAuthorized later to
      → claim later to token w' ≡ err (Error.faucet FaucetError.too_soon)
  unfolding claim saturating_add
  claim_waits e later to token amount w w' config h configured started range early auth =
      let f = claim-Claimed e to token amount w w' h in
      ground (arith, f.configured, f.same_config, f.same_drip, f.dripping, f.positive, f.noted)

  -- A claim of a token that drips is refused with `TooSoon` just where it comes too soon.
  claim-too_soon :
      (e : Env) (who token : Address) (w : World c) (config : Config)
      → w.faucet.config ≡ some config
      → IsAuthorized e who
      → pos 0 <ℤ unwrap_or (w.faucet.drips token) (pos 0)
      → (too_soon (unwrap_or (w.faucet.last who token) 0) config.cooldown e.timestamp ≡ false)
        ↔ (claim e who token w ≢ err (Error.faucet FaucetError.too_soon))
  unfolding claim
  claim-too_soon e who token w config configured auth dripping = (
    λ free refused.
        elim (Option-cases (
          Chain.mint c (enter e token) token who (unwrap_or (w.faucet.drips token) (pos 0))
            w.ledger)) [ inl unminted ↦ ground arith | inr (ledger, minted) ↦ ground arith ],
    λ unrefused.
        elim (Bool-cases
          (too_soon (unwrap_or (w.faucet.last who token) 0) config.cooldown e.timestamp)) [
            | inl early ↦ absurd (unrefused (ground arith))
            | inr free ↦ free
          ],
  )

  -- On a faucet that is initialised `next_claim` answers, and the answer is exact for a token that
  -- drips and an account that signs: from the query on, a claim is refused with `TooSoon` exactly
  -- while the clock is below the answer, and the answer is 0 exactly when the clock of the query
  -- has reached it.
  pub next_claim_exact :
      (e later : Env) (who token : Address) (w : World c) (config : Config)
      → w.faucet.config ≡ some config
      → e.timestamp ≤ later.timestamp
      → IsAuthorized later who
      → pos 0 <ℤ unwrap_or (w.faucet.drips token) (pos 0)
      → (at : ℕ) × (next_claim e who token w ≡ ok (at, w))
        × ((at ≤ later.timestamp)
            ↔ (claim later who token w ≢ err (Error.faucet FaucetError.too_soon)))
        × ((at ≡ 0) ↔ (at ≤ e.timestamp))
  unfolding next_claim
  next_claim_exact e later who token w config configured after auth dripping =
      let last = unwrap_or (w.faucet.last who token) 0 in
      let (free, due) = next_after_first last config.cooldown e.timestamp later.timestamp after in
      let (passes, passed) = claim-too_soon later who token w config configured auth dripping in
      (
        next_after last config.cooldown e.timestamp,
        ground (arith, configured),
        (λ h. passes (free h), λ h. due (passed h)),
        next_after-eq-zero last config.cooldown e.timestamp,
      )
