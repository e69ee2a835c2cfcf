-- ===== src/Vault/Solvency/Capital.antt =====
-- Deposits and withdrawals (contracts/lp_vault/src/contract.rs) keep the vault solvent.
use stellar_exit_contracts.Vault.Solvency.Backed.{found-NodeIsSound, sent-IsBacked}
use stellar_exit_contracts.Vault.Solvency.{
  NodeIsSound, AccountIsSound, deposits, IsBacked, IsSolvent, IsOutside,
}
use stellar_exit_contracts.Vault.Solvency.Accounts.{
  insert-AccountsAreSound, replace-AccountsAreSound, update-AccountsAreSound, deposits-insert,
  deposits-insert_new,
}
use stellar_exit_contracts.Vault.Solvency.Arithmetic.{
  eq-pos_part, deposit-NodeIsSound, request-NodeIsSound, unreserved-NodeIsSound,
  execute-NodeIsSound,
}
use stellar_exit_contracts.Vault.Effects.{IsAuthorized}
use stellar_exit_contracts.Vault.Effects.Capital.{
  credited, deposit-Deposited, request_withdrawal-Requested, execute_withdrawal-Executed,
  cancel_withdrawal_effect,
}
use stellar_exit_contracts.Vault.Hooks.{reserved}
use stellar_exit_contracts.Vault.Capital.{
  deposit, request_withdrawal, cancel_withdrawal, execute_withdrawal,
}
use stellar_exit_contracts.State.Vault.{Node, Config, WithdrawRequest}
use stellar_exit_contracts.Host.Chain.{Address, Env, Chain, World, Sep41, enter}
use stellar_exit_contracts.Host.Ledger.{balance-received}
use stellar_exit_contracts.Host.Call.{ok}
use stellar_exit_contracts.Prelude.{
  ◌+◌, ◌≤◌, ◌≡◌, ◌≢◌, refl, inl, inr, some, none, Option-cases, arith, subst, sym,
}
use stellar_exit_contracts.Prelude.Int.{◌≤ℤ◌, ℤ, pos, pos_part, ◌+ℤ◌, int_laws, parts_exclusive}
use stellar_exit_contracts.Prelude.Dict.{lookup, insert}

module _ {c : Chain} (e : Env) (node : Address) (amount : ℤ) (w w' : World c)
    (s : IsSolvent e.current w) where
  pub request_withdrawal-IsSolvent :
      request_withdrawal e node amount w ≡ ok (tt, w') → IsSolvent e.current w'
  request_withdrawal-IsSolvent h =
      let f = request_withdrawal-Requested e node amount w w' h in
      rw (f.result) (record {
        accounts = update-AccountsAreSound node w.vault.nodes w.vault.withdrawals _ s.accounts (
            subst (λ o. AccountIsSound o (some (requested f.config))) (sym f.known)
              (request-NodeIsSound f.state _ amount (found-NodeIsSound w node s f.state f.known)
                f.positive f.free));
        backed = s.backed;
      })
    where
      requested : Config → WithdrawRequest
      requested config = record {
        amount = amount;
        unlock_at = e.timestamp + config.withdraw_timelock;
      }

module _ {c : Chain} (e : Env) (node : Address) (w w' : World c) (s : IsSolvent e.current w) where
  -- No reservation is always sound.
  cleared-AccountIsSound : AccountIsSound (lookup node w.vault.nodes) none
  cleared-AccountIsSound = elim (Option-cases (lookup node w.vault.nodes)) [
    | inl unknown ↦ rw unknown refl
    | inr (n, known) ↦ rw known (unreserved-NodeIsSound n _ (found-NodeIsSound w node s n known))
  ]

  pub cancel_withdrawal-IsSolvent :
      cancel_withdrawal e node w ≡ ok (tt, w') → IsSolvent e.current w'
  cancel_withdrawal-IsSolvent h =
      let f = cancel_withdrawal_effect e node w w' h in
      record {
        accounts = rw (f.0) (
            update-AccountsAreSound node w.vault.nodes w.vault.withdrawals none s.accounts
              cleared-AccountIsSound);
        backed = rw (f.0, f.1) s.backed;
      }

  pub execute_withdrawal-IsSolvent :
      Sep41 c → execute_withdrawal e node w ≡ ok (tt, w') → IsSolvent e.current w'
  execute_withdrawal-IsSolvent law h =
      let f = execute_withdrawal-Executed e node w w' h in
      let sound : NodeIsSound f.state f.req.amount =
        (let g = found-NodeIsSound w node s f.state f.known in
          subst (λ o. NodeIsSound f.state (reserved o)) f.pending g) in
      rw (f.result) (record {
        accounts =
            replace-AccountsAreSound node w.vault.nodes w.vault.withdrawals _ none s.accounts
              (execute-NodeIsSound f.state f.req.amount sound);
        backed =
            sent-IsBacked w node s law (enter e f.config.usdc) f.config _ f.state node f.req.amount
              f.ledger f.configured f.known sound.reserve_nonneg
              (omega (int_laws, sound.committed_nonneg, f.free)) refl f.moved;
      })

  credited-NodeIsSound : NodeIsSound (credited e node w) (reserved (w.vault.withdrawals node))
  credited-NodeIsSound = elim (Option-cases (lookup node w.vault.nodes)) [
    | inl unknown ↦
        rw
          (
            unknown,
            subst (λ o. AccountIsSound o (w.vault.withdrawals node)) unknown (s.accounts node),
          )
          (omega int_laws)
    | inr (n, known) ↦ rw known (found-NodeIsSound w node s n known)
  ]

  deposits-insert-credited :
      (n : Node)
      → deposits (insert node n w.vault.nodes) + pos_part (credited e node w).deposited
        ≡ deposits w.vault.nodes + pos_part n.deposited
  deposits-insert-credited n = elim (Option-cases (lookup node w.vault.nodes)) [
    | inl unknown ↦ rw unknown (omega (arith, deposits-insert_new node n w.vault.nodes unknown))
    | inr (old, known) ↦ rw known (deposits-insert node n old w.vault.nodes known)
  ]

  -- The USDC of a deposit comes from somebody else than the vault.
  received-IsBacked :
      Sep41 c
      → (config : Config) (amount : ℤ) (l : Chain.Ledger c) → w.vault.config ≡ some config
      → node ≢ e.current
      → pos 0 ≤ℤ amount
      → Chain.transfer c (enter e config.usdc) config.usdc node e.current amount w.ledger ≡ some l
      → IsBacked c e.current w.vault.config
          (insert node
            (record (credited e node w) { deposited = (credited e node w).deposited +ℤ amount })
            w.vault.nodes)
          l
  received-IsBacked law config amount l configured other nonneg moved =
      let received =
        balance-received law (enter e config.usdc) config.usdc node e.current (pos_part amount)
          w.ledger l (rw (← eq-pos_part amount nonneg) moved) other in
      let backed_by : deposits w.vault.nodes ≤ Chain.balance c w.ledger config.usdc e.current =
        subst (λ o. IsBacked c e.current o w.vault.nodes w.ledger) configured s.backed in
      let old = credited e node w in
      rw configured (
        omega (
          int_laws,
          received,
          backed_by,
          parts_exclusive (old.deposited +ℤ amount),
          parts_exclusive amount,
          credited-NodeIsSound.covered,
          credited-NodeIsSound.committed_nonneg,
          credited-NodeIsSound.reserve_nonneg,
          deposits-insert-credited (record old { deposited = old.deposited +ℤ amount }),
        ))

  pub deposit-IsSolvent :
      (amount : ℤ)
      → Sep41 c
      → IsOutside e
      → deposit e node amount w ≡ ok (tt, w')
      → IsSolvent e.current w'
  deposit-IsSolvent amount law outside h =
      let f = deposit-Deposited e node amount w w' h in
      rw (f.result) (record {
        accounts = insert-AccountsAreSound node w.vault.nodes w.vault.withdrawals _ s.accounts (
            deposit-NodeIsSound (credited e node w) _ amount credited-NodeIsSound f.positive f.fit);
        backed =
            received-IsBacked law f.config amount f.ledger f.configured
              (λ own. outside (subst (IsAuthorized e) own f.authorized)) (omega (arith, f.positive))
              f.moved;
      })
