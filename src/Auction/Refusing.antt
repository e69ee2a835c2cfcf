-- ===== src/Auction/Refusing.antt =====
-- A bid that the vault refuses, and what its caller can tell from it: `place_bid` of
-- contracts/exit_auction/src/lib.rs, `commit` of contracts/lp_vault/src/contract.rs, and the numbers
-- of the errors.
use stellar_exit_contracts.Auction.Bids.{place_bid}
use stellar_exit_contracts.Auction.Storage.{discount_bps, vault_commit, is_live}
use stellar_exit_contracts.Auction.Effects.{Found}
use stellar_exit_contracts.Vault.Hooks.{commit}
use stellar_exit_contracts.Vault.Effects.{IsAuthorized, Backing-cases}
use stellar_exit_contracts.State.Auction.{Status}
use stellar_exit_contracts.State.Codes.{code}
use stellar_exit_contracts.State.Errors.{Error}
use stellar_exit_contracts.State.Refusals.{Contract, issuer, issued_by, error_of-code}
use stellar_exit_contracts.Host.Chain.{Address, Env, Chain, World, enter}
use stellar_exit_contracts.Host.Call.{err, ok, call_contract-reached}
use stellar_exit_contracts.Prelude.{ℕ, ◌≡◌, ◌≤◌, ◌∙◌, true, some, arith, inl, inr, Option-cases}
use stellar_exit_contracts.Prelude.Int.{ℤ, pos, ◌<ℤ◌}

-- A refusal of the vault that carries a number is the vault's own.
refused_commit-issued :
    {c : Chain} (e : Env) (node asset : Address) (amount : ℤ) (discount : ℕ) (w : World c)
    (x : Error) (n : ℕ)
    → commit e node asset amount discount w ≡ err x
    → code x ≡ some n
    → issued_by x ≡ some Contract.vault
unfolding commit code issued_by
refused_commit-issued e node asset amount discount w x n refused h =
    elim (Backing-cases node asset w) [
      | inl missing ↦ ground arith
      | inr b ↦ elim (Option-cases b.config.auction) [
        | inl unwired ↦ ground (arith, b.configured)
        | inr (auction, wired) ↦ ground (arith, b.configured, b.known, b.declared, wired)
      ]
    ]

-- A signed bid that passes the checks of an auction wired to the vault, but for which the vault
-- refuses to commit with an error that has a number, is refused with that error of the vault; its
-- number is no other error's, and stands in the range of the vault, although the auction was
-- called.
pub refused_bid_tells :
    {c : Chain} (e : Env) (node : Address) (i : ℕ) (usdc_amount : ℤ) (discount : ℕ) (w : World c)
    (f : Found i w) (x : Error) (n : ℕ)
    → f.config.vault ≡ Chain.vault_address c
    → IsAuthorized e node
    → is_live f.exit.status ≡ true
    → (f.exit.status ≡ Status.taking_bids → e.timestamp ≤ f.exit.closes_at)
    → pos 0 <ℤ usdc_amount
    → f.exit.best_usdc <ℤ usdc_amount
    → discount_bps f.exit.reference_usdc usdc_amount w ≡ ok (discount, w)
    → commit (enter e (Chain.vault_address c)) node f.exit.asset usdc_amount discount w ≡ err x
    → code x ≡ some n
    → (place_bid e node i usdc_amount w ≡ err x)
      × ((other : Error) → code other ≡ some n → other ≡ x)
      × (issuer n ≡ some Contract.vault)
unfolding place_bid vault_commit
refused_bid_tells {c} e node i usdc d w f x n wired auth live in_time positive higher priced refused
      h =
    let (told, from) = error_of-code x n h in
    let through =
      call_contract-reached e (Chain.vault_address c) f.config.vault
        (λ inner. commit inner node f.exit.asset usdc d) w wired in
    (
      ground (arith, f.configured, f.stored, through, wired),
      λ other same. let (read, _) = error_of-code other n same in cc,
      from ∙ refused_commit-issued _ node f.exit.asset usdc d w x n refused h,
    )
