-- ===== src/State/Refusals.antt =====
-- What a caller can tell from the number of an error: which contract of contracts/ refused and why.
use stellar_exit_contracts.State.Errors.{
  Error, VaultError, RouterError, QueueError, AuctionError, FaucetError,
}
use stellar_exit_contracts.State.Codes.{
  code, vault_code, router_code, queue_code, auction_code, faucet_code,
}
use stellar_exit_contracts.Prelude.{
  subst, ℕ, ◌≡◌, refl, ◌&&◌, Option, some, none, List, [], ◌∷◌, leb, ◌==◌, if◌then◌else◌, arith,
}
use mathlib.Core.Option.{map}

pub data Contract : Type 0 where
  vault router queue auction faucet : Contract

-- The ranges that the comments promise.
unfoldable pub issuer : ℕ → Option Contract
issuer n =
    if leb 1 n && leb n 99
    then some Contract.vault
    else if leb 100 n && leb n 199
    then some Contract.router
    else if leb 200 n && leb n 299
    then some Contract.queue
    else if leb 300 n && leb n 399
    then some Contract.auction
    else if leb 900 n && leb n 999
    then some Contract.faucet
    else none

unfoldable pub issued_by : Error → Option Contract
issued_by (Error.vault x) = some Contract.vault
issued_by (Error.router x) = some Contract.router
issued_by (Error.queue x) = some Contract.queue
issued_by (Error.auction x) = some Contract.auction
issued_by (Error.faucet x) = some Contract.faucet
issued_by (Error.trap x) = none

-- The first error of a list that has the number.
abbrev first : {A : Type 0} → (A → ℕ) → ℕ → List A → Option A
first f n [] = none
first f n (x ∷ rest) = let later = first f n rest in if f x == n then some x else later

abbrev vault_errors : List VaultError
vault_errors =
    VaultError.already_initialized ∷ VaultError.not_initialized ∷ VaultError.not_admin
    ∷ VaultError.not_auction ∷ VaultError.not_router ∷ VaultError.not_wired
    ∷ VaultError.invalid_amount ∷ VaultError.below_min_deposit ∷ VaultError.unknown_node
    ∷ VaultError.insufficient_free_balance ∷ VaultError.withdrawal_pending
    ∷ VaultError.no_withdrawal_pending ∷ VaultError.timelock_not_elapsed ∷ VaultError.no_appetite
    ∷ VaultError.appetite_inactive ∷ VaultError.exposure_exceeded ∷ VaultError.discount_below_floor
    ∷ VaultError.backing_too_young ∷ VaultError.single_fill_cap_exceeded
    ∷ VaultError.commit_underflow ∷ VaultError.invalid_bps ∷ []

abbrev router_errors : List RouterError
router_errors =
    RouterError.already_initialized ∷ RouterError.not_initialized ∷ RouterError.not_auction
    ∷ RouterError.not_wired ∷ RouterError.invalid_amount ∷ RouterError.invalid_bps
    ∷ RouterError.already_escrowed ∷ RouterError.nothing_escrowed ∷ RouterError.exceeds_escrow ∷ []

abbrev queue_errors : List QueueError
queue_errors =
    QueueError.already_initialized ∷ QueueError.not_initialized ∷ QueueError.not_auction
    ∷ QueueError.already_queued ∷ QueueError.not_queued ∷ QueueError.queue_full ∷ []

abbrev auction_errors : List AuctionError
auction_errors =
    AuctionError.already_initialized ∷ AuctionError.not_initialized ∷ AuctionError.unknown_exit
    ∷ AuctionError.invalid_amount ∷ AuctionError.invalid_duration ∷ AuctionError.invalid_reference
    ∷ AuctionError.exit_closed ∷ AuctionError.bidding_over ∷ AuctionError.still_bidding
    ∷ AuctionError.bid_too_low ∷ AuctionError.no_bids ∷ AuctionError.reserve_not_met
    ∷ AuctionError.not_at_head ∷ []

abbrev faucet_errors : List FaucetError
faucet_errors =
    FaucetError.already_initialized ∷ FaucetError.not_initialized ∷ FaucetError.unknown_token
    ∷ FaucetError.too_soon ∷ FaucetError.invalid_amount ∷ []

-- The error that a number stands for.
unfoldable pub error_of : ℕ → Option Error
error_of n = elim (issuer n) [
  | some Contract.vault ↦ map Error.vault (first vault_code n vault_errors)
  | some Contract.router ↦ map Error.router (first router_code n router_errors)
  | some Contract.queue ↦ map Error.queue (first queue_code n queue_errors)
  | some Contract.auction ↦ map Error.auction (first auction_code n auction_errors)
  | some Contract.faucet ↦ map Error.faucet (first faucet_code n faucet_errors)
  | none ↦ none
]

-- What the number of an error tells is that error, and the contract that it comes from.
abbrev Tells : Error → ℕ → Type 0
Tells x n = (error_of n ≡ some x) × (issuer n ≡ issued_by x)

vault_code-Tells : (x : VaultError) → Tells (Error.vault x) (vault_code x)
unfolding issuer issued_by error_of vault_code
vault_code-Tells x = elim x as (λ k. Tells (Error.vault k) (vault_code k)) [
  | VaultError.already_initialized ↦ (refl, refl)
  | VaultError.not_initialized ↦ (refl, refl)
  | VaultError.not_admin ↦ (refl, refl)
  | VaultError.not_auction ↦ (refl, refl)
  | VaultError.not_router ↦ (refl, refl)
  | VaultError.not_wired ↦ (refl, refl)
  | VaultError.invalid_amount ↦ (refl, refl)
  | VaultError.below_min_deposit ↦ (refl, refl)
  | VaultError.unknown_node ↦ (refl, refl)
  | VaultError.insufficient_free_balance ↦ (refl, refl)
  | VaultError.withdrawal_pending ↦ (refl, refl)
  | VaultError.no_withdrawal_pending ↦ (refl, refl)
  | VaultError.timelock_not_elapsed ↦ (refl, refl)
  | VaultError.no_appetite ↦ (refl, refl)
  | VaultError.appetite_inactive ↦ (refl, refl)
  | VaultError.exposure_exceeded ↦ (refl, refl)
  | VaultError.discount_below_floor ↦ (refl, refl)
  | VaultError.backing_too_young ↦ (refl, refl)
  | VaultError.single_fill_cap_exceeded ↦ (refl, refl)
  | VaultError.commit_underflow ↦ (refl, refl)
  | VaultError.invalid_bps ↦ (refl, refl)
]

router_code-Tells : (x : RouterError) → Tells (Error.router x) (router_code x)
unfolding issuer issued_by error_of router_code
router_code-Tells x = elim x as (λ k. Tells (Error.router k) (router_code k)) [
  | RouterError.already_initialized ↦ (refl, refl)
  | RouterError.not_initialized ↦ (refl, refl)
  | RouterError.not_auction ↦ (refl, refl)
  | RouterError.not_wired ↦ (refl, refl)
  | RouterError.invalid_amount ↦ (refl, refl)
  | RouterError.invalid_bps ↦ (refl, refl)
  | RouterError.already_escrowed ↦ (refl, refl)
  | RouterError.nothing_escrowed ↦ (refl, refl)
  | RouterError.exceeds_escrow ↦ (refl, refl)
]

queue_code-Tells : (x : QueueError) → Tells (Error.queue x) (queue_code x)
unfolding issuer issued_by error_of queue_code
queue_code-Tells x = elim x as (λ k. Tells (Error.queue k) (queue_code k)) [
  | QueueError.already_initialized ↦ (refl, refl)
  | QueueError.not_initialized ↦ (refl, refl)
  | QueueError.not_auction ↦ (refl, refl)
  | QueueError.already_queued ↦ (refl, refl)
  | QueueError.not_queued ↦ (refl, refl)
  | QueueError.queue_full ↦ (refl, refl)
]

auction_code-Tells : (x : AuctionError) → Tells (Error.auction x) (auction_code x)
unfolding issuer issued_by error_of auction_code
auction_code-Tells x = elim x as (λ k. Tells (Error.auction k) (auction_code k)) [
  | AuctionError.already_initialized ↦ (refl, refl)
  | AuctionError.not_initialized ↦ (refl, refl)
  | AuctionError.unknown_exit ↦ (refl, refl)
  | AuctionError.invalid_amount ↦ (refl, refl)
  | AuctionError.invalid_duration ↦ (refl, refl)
  | AuctionError.invalid_reference ↦ (refl, refl)
  | AuctionError.exit_closed ↦ (refl, refl)
  | AuctionError.bidding_over ↦ (refl, refl)
  | AuctionError.still_bidding ↦ (refl, refl)
  | AuctionError.bid_too_low ↦ (refl, refl)
  | AuctionError.no_bids ↦ (refl, refl)
  | AuctionError.reserve_not_met ↦ (refl, refl)
  | AuctionError.not_at_head ↦ (refl, refl)
]

faucet_code-Tells : (x : FaucetError) → Tells (Error.faucet x) (faucet_code x)
unfolding issuer issued_by error_of faucet_code
faucet_code-Tells x = elim x as (λ k. Tells (Error.faucet k) (faucet_code k)) [
  | FaucetError.already_initialized ↦ (refl, refl)
  | FaucetError.not_initialized ↦ (refl, refl)
  | FaucetError.unknown_token ↦ (refl, refl)
  | FaucetError.too_soon ↦ (refl, refl)
  | FaucetError.invalid_amount ↦ (refl, refl)
]

-- The number of an error tells which error it is and which contract has it: it stands in the range
-- of that contract, and no other error has it.
pub error_of-code :
    (x : Error) (n : ℕ) → code x ≡ some n → (error_of n ≡ some x) × (issuer n ≡ issued_by x)
unfolding code
error_of-code (Error.vault x) n h =
    subst (Tells (Error.vault x)) (ground (arith, h)) (vault_code-Tells x)
error_of-code (Error.router x) n h =
    subst (Tells (Error.router x)) (ground (arith, h)) (router_code-Tells x)
error_of-code (Error.queue x) n h =
    subst (Tells (Error.queue x)) (ground (arith, h)) (queue_code-Tells x)
error_of-code (Error.auction x) n h =
    subst (Tells (Error.auction x)) (ground (arith, h)) (auction_code-Tells x)
error_of-code (Error.faucet x) n h =
    subst (Tells (Error.faucet x)) (ground (arith, h)) (faucet_code-Tells x)
error_of-code (Error.trap x) n h = absurd (ground (arith, h))
