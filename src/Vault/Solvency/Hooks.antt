-- ===== src/Vault/Solvency/Hooks.antt =====
-- `commit`, `release` and `pay_out` (contracts/lp_vault/src/contract.rs) keep the vault solvent.
use stellar_exit_contracts.Vault.Solvency.Backed.{
  found-NodeIsSound, same_deposit-IsBacked, sent-IsBacked,
}
use stellar_exit_contracts.Vault.Solvency.{IsSolvent}
use stellar_exit_contracts.Vault.Solvency.Accounts.{insert-AccountsAreSound}
use stellar_exit_contracts.Vault.Solvency.Arithmetic.{
  commit-NodeIsSound, release-NodeIsSound, pay_out-NodeIsSound,
}
use stellar_exit_contracts.Vault.Effects.Hooks.{
  Committed, commit-Committed, Released, release-Released, PaidOut, pay_out-PaidOut,
}
use stellar_exit_contracts.Vault.Hooks.{commit, release, pay_out}
use stellar_exit_contracts.Host.Chain.{Address, Env, Chain, World, Sep41, enter}
use stellar_exit_contracts.Host.Call.{ok}
use stellar_exit_contracts.Prelude.{ℕ, ◌≡◌, refl, arith}
use stellar_exit_contracts.Prelude.Int.{ℤ}

module _ {c : Chain} (e : Env) (node asset : Address) (amount : ℤ) (w w' : World c)
    (s : IsSolvent e.current w) where
  pub Committed-IsSolvent :
      (discount_bps : ℕ) → Committed e node asset amount discount_bps w w' → IsSolvent e.current w'
  Committed-IsSolvent discount_bps f = rw (f.result) (record {
    accounts = insert-AccountsAreSound node w.vault.nodes w.vault.withdrawals _ s.accounts (
        commit-NodeIsSound f.state _ amount (found-NodeIsSound w node s f.state f.known) f.positive
          f.free);
    backed = same_deposit-IsBacked w node s _ f.state f.known refl;
  })

  pub Released-IsSolvent : Released e node asset amount w w' → IsSolvent e.current w'
  Released-IsSolvent f = rw (f.result) (record {
    accounts = insert-AccountsAreSound node w.vault.nodes w.vault.withdrawals _ s.accounts (
        release-NodeIsSound f.state _ amount (found-NodeIsSound w node s f.state f.known) f.positive
          f.covered);
    backed = same_deposit-IsBacked w node s _ f.state f.known refl;
  })

  pub PaidOut-IsSolvent :
      (to : Address) → Sep41 c → PaidOut e node asset amount to w w' → IsSolvent e.current w'
  PaidOut-IsSolvent to law f = rw (f.result) (record {
    accounts = insert-AccountsAreSound node w.vault.nodes w.vault.withdrawals _ s.accounts (
        pay_out-NodeIsSound f.state _ amount (found-NodeIsSound w node s f.state f.known) f.positive
          f.covered);
    backed =
        sent-IsBacked w node s law (enter e f.config.usdc) f.config _ f.state to amount f.ledger
          f.configured f.known (omega (arith, f.positive)) f.held refl f.moved;
  })

  pub commit-IsSolvent :
      (discount_bps : ℕ)
      → commit e node asset amount discount_bps w ≡ ok (tt, w')
      → IsSolvent e.current w'
  commit-IsSolvent discount_bps h =
      Committed-IsSolvent discount_bps (commit-Committed e node asset amount discount_bps w w' h)

  pub release-IsSolvent : release e node asset amount w ≡ ok (tt, w') → IsSolvent e.current w'
  release-IsSolvent h = Released-IsSolvent (release-Released e node asset amount w w' h)

  pub pay_out-IsSolvent :
      (to : Address)
      → Sep41 c
      → pay_out e node asset to amount w ≡ ok (tt, w')
      → IsSolvent e.current w'
  pay_out-IsSolvent to law h =
      PaidOut-IsSolvent to law (pay_out-PaidOut e node asset amount to w w' h)
