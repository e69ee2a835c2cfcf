-- ===== src/Auction/Effects.antt =====
-- What a call of contracts/exit_auction/src/lib.rs has found when it gets past its reads, and what its
-- two pure computations answer.
pub mod Filling
pub mod Closing
pub mod Bidding
pub mod Selling
use stellar_exit_contracts.Auction.Storage.{
  discount_bps, at_head, queue_head, lets_through, read_config,
}
use stellar_exit_contracts.Queue
use stellar_exit_contracts.Queue.Calls.{line}
use stellar_exit_contracts.State.Auction.{Config, Exit}
use stellar_exit_contracts.State.Vault.{bps_denominator}
use stellar_exit_contracts.Host.Chain.{Env, Chain, World}
use stellar_exit_contracts.Host.Call.{ok, call_contract-eq-ok, Result-cases}
use stellar_exit_contracts.Prelude.{
  ℕ, ◌≡◌, ◌⊎◌, inl, inr, Bool, some, none, Option, arith, Option-cases, if◌then◌else◌,
}
use stellar_exit_contracts.Prelude.Int.{ℤ, pos, ◌-ℤ◌, ◌*ℤ◌, quot, leb_ℤ, as_u32}
use stellar_exit_contracts.Prelude.Dict.{lookup}
use stellar_exit_contracts.Prelude.Lists.{first}

-- The discount that a bid makes on the reference value, in basis points.
unfoldable pub discount_of : ℤ → ℤ → ℕ
discount_of reference_usdc usdc_amount =
    if leb_ℤ reference_usdc usdc_amount
    then 0
    else as_u32 (quot ((reference_usdc -ℤ usdc_amount) *ℤ pos bps_denominator) reference_usdc)

module _ {c : Chain} where
  pub discount_bps_lem :
      (reference_usdc usdc_amount : ℤ) (w w' : World c) (discount : ℕ)
      → discount_bps reference_usdc usdc_amount w ≡ ok (discount, w')
      → (discount ≡ discount_of reference_usdc usdc_amount) × (w' ≡ w)
  unfolding discount_bps discount_of
  discount_bps_lem reference_usdc usdc_amount w w' discount h = ground arith

  -- The contract is initialised and has the exit.
  pub record Found (exit_id : ℕ) (w : World c) : Type 0 where
    pub config : Config
    pub exit : Exit
    pub configured : w.auction.config ≡ some config
    pub stored : lookup exit_id w.auction.exits ≡ some exit

  pub Found-cases :
      (exit_id : ℕ) (w : World c)
      → ((lookup exit_id w.auction.exits ≡ none)
          ⊎ ((exit : Exit) × (lookup exit_id w.auction.exits ≡ some exit)
              × (w.auction.config ≡ none)))
        ⊎ Found exit_id w
  Found-cases exit_id w = elim (Option-cases (lookup exit_id w.auction.exits)) [
    | inl u ↦ inl (inl u)
    | inr (exit, u) ↦ elim (Option-cases w.auction.config) [
      | inl e ↦ inl (inr (exit, u, e))
      | inr (config, e) ↦ inr (record { config = config; exit = exit; configured = e; stored = u })
    ]
  ]

  queue_head_lem :
      (e : Env) (config : Config) (asset : ℕ) (w w' : World c) (answer : Option ℕ)
      → queue_head e config asset w ≡ ok (answer, w')
      → (answer ≡ first (line w asset)) × (w' ≡ w)
  unfolding queue_head Queue.head
  queue_head_lem e config asset w w' answer h =
      let answered =
        call_contract-eq-ok e (Chain.queue_address c) config.queue (λ inner. Queue.head asset) w w'
          h in
      (ground (arith, answered), ground (arith, answered))

  -- The answer to whether the exit may go: it is first in the line of its asset, or nobody waits.
  pub at_head_lem :
      (e : Env) (exit : Exit) (w w' : World c) (answer : Bool)
      → at_head e exit w ≡ ok (answer, w')
      → (answer ≡ lets_through (first (line w exit.asset)) exit.id) × (w' ≡ w)
  unfolding at_head
  at_head_lem e exit w w' answer h = elim (Option-cases w.auction.config) [
    | inl missing ↦ absurd (ground arith)
    | inr (config, configured) ↦ elim (Result-cases (queue_head e config exit.asset w)) [
      | inl (x, refused) ↦ absurd (ground arith)
      | inr (head, v, heard) ↦
          let asked = queue_head_lem e config exit.asset w v head heard in
          (ground (arith, asked), ground (arith, asked))
    ]
  ]
