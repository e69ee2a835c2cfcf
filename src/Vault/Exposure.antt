-- ===== src/Vault/Exposure.antt =====
-- The standing terms, the age of a backing and the exposure (contracts/lp_vault/src/contract.rs,
-- `set_appetite`, `reduce_exposure`, `release`, `free_balance`).
use stellar_exit_contracts.Vault.Terms.{set_appetite, reduce_exposure}
use stellar_exit_contracts.Vault.Effects.Terms.{set_appetite-SameMoney, reduce_exposure-SameMoney}
use stellar_exit_contracts.Prelude.Dict.{lookup}
use stellar_exit_contracts.Vault.Hooks.{reserved, commit, release}
use stellar_exit_contracts.Vault.Queries.{free_balance}
use stellar_exit_contracts.Vault.Effects.{IsAuthorized, Account, Backing}
use stellar_exit_contracts.Vault.Solvency.{NodeIsSound, IsSolvent}
use stellar_exit_contracts.Vault.Withdrawal.{unlocked-fits}
use stellar_exit_contracts.Vault.Solvency.Backed.{found-NodeIsSound}
use stellar_exit_contracts.State.Vault.{Node, Appetite, min_backing_age}
use stellar_exit_contracts.State.Errors.{Error, VaultError}
use stellar_exit_contracts.Host.Chain.{Address, Env, Chain, World}
use stellar_exit_contracts.Host.Call.{ok, err}
use stellar_exit_contracts.Prelude.{
  ℕ, ◌+◌, ◌≤◌, ◌<◌, ◌≡◌, true, false, some, none, arith, Option, ==_refl, refl, ap, ◌∙◌,
  if◌then◌else◌,
}
use stellar_exit_contracts.Prelude.Int.{
  ltb_ℤ, ℤ, pos, ◌+ℤ◌, ◌-ℤ◌, ◌<ℤ◌, fits, fits_of_nonneg, int_laws, parts_exclusive, -ℤ_parts,
  +ℤ_parts,
}

-- No live terms: none were declared, or they are switched off.
abbrev pub IsIdle : Option Appetite → Type 0
IsIdle none = Unit
IsIdle (some a) = a.active ≡ false

-- `commit` on terms that are too young.
commit_too_young :
    {c : Chain} (e : Env) (node asset auction : Address) (amount : ℤ) (discount_bps : ℕ)
    (w : World c) (b : Backing node asset w)
    → b.config.auction ≡ some auction
    → IsAuthorized e auction
    → pos 0 <ℤ amount
    → b.appetite.active ≡ true
    → b.appetite.backed_at ≤ e.timestamp
    → e.timestamp < b.appetite.backed_at + min_backing_age
    → commit e node asset amount discount_bps w ≡ err (Error.vault VaultError.backing_too_young)
unfolding commit
commit_too_young e node asset auction amount d w b wired auth p active after early =
    ground (arith, b.configured, b.known, b.declared)

-- `release` of more than is left.
pub release_underflow :
    {c : Chain} (e : Env) (node asset auction : Address) (amount : ℤ) (w : World c)
    (b : Backing node asset w)
    → b.config.auction ≡ some auction
    → IsAuthorized e auction
    → pos 0 <ℤ amount
    → b.appetite.exposure <ℤ amount
    → release e node asset amount w ≡ err (Error.vault VaultError.commit_underflow)
unfolding release
release_underflow e node asset auction amount w b wired auth p less =
    ground (arith, b.configured, b.known, b.declared)

-- The terms that a declaration on idle terms leaves.
fresh_terms : Env → ℤ → ℤ → ℕ → Appetite
fresh_terms e max_exposure exposure min_discount_bps = record {
  max_exposure = max_exposure;
  exposure = exposure;
  min_discount_bps = min_discount_bps;
  active = true;
  backed_at = e.timestamp;
}

kept_exposure : Option Appetite → ℤ
kept_exposure none = pos 0
kept_exposure (some a) = a.exposure

set_appetite_idle :
    {c : Chain} (e : Env) (node asset : Address) (max_exposure : ℤ) (min_discount_bps : ℕ)
    (w w' : World c)
    → IsIdle (w.vault.appetites node asset)
    → set_appetite e node asset max_exposure min_discount_bps true w ≡ ok (tt, w')
    → w'.vault.appetites node asset
      ≡ some (
          fresh_terms e max_exposure
            (kept_exposure (w.vault.appetites node asset))
            min_discount_bps)
unfolding set_appetite fresh_terms kept_exposure
set_appetite_idle e node asset max min w w' idle h = ground (arith, ==_refl node, ==_refl asset)

-- Whoever declares terms anew, or switches them on again, cannot have capital committed on them
-- for the next `MIN_BACKING_AGE` seconds: the wired auction is refused with `BackingTooYoung`.
pub set_appetite_ages :
    {c : Chain} (e later : Env) (node asset auction : Address) (max_exposure amount : ℤ)
    (min_discount_bps discount_bps : ℕ) (w w' : World c) (a : Account node w)
    → IsIdle (w.vault.appetites node asset)
    → set_appetite e node asset max_exposure min_discount_bps true w ≡ ok (tt, w')
    → a.config.auction ≡ some auction
    → IsAuthorized later auction
    → pos 0 <ℤ amount
    → e.timestamp ≤ later.timestamp
    → later.timestamp < e.timestamp + min_backing_age
    → commit later node asset amount discount_bps w'
      ≡ err (Error.vault VaultError.backing_too_young)
unfolding fresh_terms
set_appetite_ages e later node asset auction max amount min d w w' a idle h wired auth p after
      early =
    let m = set_appetite-SameMoney e node asset max min true w w' h in
    commit_too_young later node asset auction amount d w'
      (record {
        account = record {
          config = a.config;
          state = a.state;
          configured = m.config ∙ a.configured;
          known = ap (lookup node) m.nodes ∙ a.known;
        };
        appetite = _;
        declared = set_appetite_idle e node asset max min w w' idle h;
      })
      wired auth p refl after early

-- What is left of an exposure that is marked down.
left_over : ℤ → ℤ → ℤ
left_over exposure amount = if ltb_ℤ exposure amount then pos 0 else exposure -ℤ amount

reduce_exposure_effect :
    {c : Chain} (e : Env) (node asset : Address) (amount : ℤ) (w w' : World c)
    (b : Backing node asset w)
    → reduce_exposure e node asset amount w ≡ ok (tt, w')
    → w'.vault.appetites node asset
      ≡ some (record (b.appetite) { exposure = left_over b.appetite.exposure amount })
unfolding reduce_exposure left_over
reduce_exposure_effect e node asset amount w w' b h =
    ground (arith, b.declared, ==_refl node, ==_refl asset)

left_over-lt :
    (exposure amount bid : ℤ)
    → exposure <ℤ amount +ℤ bid
    → pos 0 <ℤ bid
    → left_over exposure amount <ℤ bid
unfolding left_over
left_over-lt exposure amount bid less p =
    ground (arith, +ℤ_parts amount bid, -ℤ_parts exposure amount)

-- A node that marks down the exposure of a live bid so far that less than the bid is left makes
-- the release of that bid fail with `CommitUnderflow`.
pub reduce_exposure_blocks_release :
    {c : Chain} (e later : Env) (node asset auction : Address) (amount bid : ℤ) (w w' : World c)
    (b : Backing node asset w)
    → reduce_exposure e node asset amount w ≡ ok (tt, w')
    → b.appetite.exposure <ℤ amount +ℤ bid
    → b.config.auction ≡ some auction
    → IsAuthorized later auction
    → pos 0 <ℤ bid
    → release later node asset bid w' ≡ err (Error.vault VaultError.commit_underflow)
reduce_exposure_blocks_release e later node asset auction amount bid w w' b h less wired auth p =
    let m = reduce_exposure-SameMoney e node asset amount w w' h in
    release_underflow later node asset auction bid w'
      (record {
        account = record {
          config = b.config;
          state = b.state;
          configured = m.config ∙ b.configured;
          known = ap (lookup node) m.nodes ∙ b.known;
        };
        appetite = _;
        declared = reduce_exposure_effect e node asset amount w w' b h;
      })
      wired auth p (left_over-lt b.appetite.exposure amount bid less p)

free-fits : (n : Node) (r : ℤ) → NodeIsSound n r → fits (n.deposited -ℤ n.committed -ℤ r) ≡ true
free-fits n r sound =
    fits_of_nonneg (n.deposited -ℤ n.committed -ℤ r) (omega int_laws)
      (omega (int_laws, parts_exclusive (n.deposited -ℤ n.committed -ℤ r)))

-- In a solvent vault `free_balance` is what is deposited, neither committed nor reserved, and so is
-- never the zero that it puts in place of a negative number.
pub free_balance_exact :
    {c : Chain} (self node : Address) (w : World c) (a : Account node w)
    → IsSolvent self w
    → free_balance node w
      ≡ ok (a.state.deposited -ℤ a.state.committed -ℤ reserved (w.vault.withdrawals node), w)
unfolding free_balance
free_balance_exact self node w a s =
    let r = reserved (w.vault.withdrawals node) in
    let n = a.state in
    let sound = found-NodeIsSound w node s n a.known in
    ground (
      arith,
      a.known,
      unlocked-fits n r sound,
      free-fits n r sound,
      sound.covered,
      -ℤ_parts n.deposited n.committed,
      -ℤ_parts (n.deposited -ℤ n.committed) r,
      +ℤ_parts n.committed r,
    )
