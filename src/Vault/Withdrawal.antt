-- ===== src/Vault/Withdrawal.antt =====
-- What the timelock promises to both sides (contracts/lp_vault/src/contract.rs, `request_withdrawal`
-- and `execute_withdrawal`).
use stellar_exit_contracts.Vault.Capital.{request_withdrawal, execute_withdrawal}
use stellar_exit_contracts.Vault.Effects.{IsAuthorized, Account, Account-cases}
use stellar_exit_contracts.Vault.Hooks.{reserved}
use stellar_exit_contracts.Vault.Solvency.{NodeIsSound, IsSolvent}
use stellar_exit_contracts.Vault.Solvency.Backed.{found-NodeIsSound}
use stellar_exit_contracts.State.Vault.{Node, WithdrawRequest}
use stellar_exit_contracts.State.Errors.{Error, VaultError}
use stellar_exit_contracts.State.Events.{Event, VaultEvent}
use stellar_exit_contracts.Host.Chain.{Address, Env, Chain, World, enter}
use stellar_exit_contracts.Host.Call.{ok, err}
use stellar_exit_contracts.Prelude.{
  ◌+◌, ◌≤◌, ◌<◌, ◌≡◌, ◌≢◌, ◌∷◌, true, inl, inr, some, none, arith, subst, Option-cases,
}
use stellar_exit_contracts.Prelude.Int.{
  ℤ, ◌-ℤ◌, ◌≤ℤ◌, fits, fits_of_nonneg, int_laws, parts_exclusive,
}
use stellar_exit_contracts.Prelude.Dict.{lookup, insert, update}

-- A reservation is within the free balance, and the two subtractions of a withdrawal stay in range.
module _ (n : Node) (r : ℤ) (sound : NodeIsSound n r) where
  reserve-le-free : r ≤ℤ n.deposited -ℤ n.committed
  reserve-le-free = omega int_laws

  pub unlocked-fits : fits (n.deposited -ℤ n.committed) ≡ true
  unlocked-fits =
      fits_of_nonneg (n.deposited -ℤ n.committed) (omega int_laws)
        (omega (int_laws, parts_exclusive (n.deposited -ℤ n.committed)))

  remainder-fits : fits (n.deposited -ℤ r) ≡ true
  remainder-fits =
      fits_of_nonneg (n.deposited -ℤ r) (omega int_laws)
        (omega (int_laws, parts_exclusive (n.deposited -ℤ r)))

module _ {c : Chain} (e : Env) (node : Address) (w : World c) (s : IsSolvent e.current w) where
  pending-NodeIsSound :
      (n : Node) (req : WithdrawRequest)
      → lookup node w.vault.nodes ≡ some n
      → w.vault.withdrawals node ≡ some req
      → NodeIsSound n req.amount
  pending-NodeIsSound n req known pending =
      subst (λ o. NodeIsSound n (reserved o)) pending (found-NodeIsSound w node s n known)

  -- In a solvent vault the second check of the free balance in `execute_withdrawal` never refuses:
  -- what was reserved cannot have been committed since.
  pub execute_withdrawal-ne-insufficient :
      execute_withdrawal e node w ≢ err (Error.vault VaultError.insufficient_free_balance)
  unfolding execute_withdrawal
  execute_withdrawal-ne-insufficient h = elim (Account-cases node w) [
    | inl missing ↦ ground arith
    | inr a ↦ elim (Option-cases (w.vault.withdrawals node)) [
      | inl idle ↦ ground arith
      | inr (req, pending) ↦ ground (
        arith,
        reserve-le-free a.state req.amount (pending-NodeIsSound a.state req a.known pending),
      )
    ]
  ]

  -- In a solvent vault, once the timelock is over, the node that asks gets the amount that it
  -- reserved, its deposit falls by as much and the reservation is gone, if the token makes the
  -- transfer.
  pub execute_withdrawal_pays :
      (a : Account node w) (req : WithdrawRequest) (l : Chain.Ledger c)
      → IsAuthorized e node
      → w.vault.withdrawals node ≡ some req
      → req.unlock_at ≤ e.timestamp
      → Chain.transfer c (enter e a.config.usdc) a.config.usdc e.current node req.amount w.ledger
        ≡ some l
      → execute_withdrawal e node w
        ≡ ok (
          tt,
          record w {
            vault = record (w.vault) {
              nodes =
                  insert node
                    (record (a.state) { deposited = a.state.deposited -ℤ req.amount })
                    w.vault.nodes;
              withdrawals = update node none w.vault.withdrawals;
            };
            ledger = l;
            events =
                Event.vault (VaultEvent.withdrawn node req.amount (a.state.deposited -ℤ req.amount))
                ∷ w.events;
          },
        )
  unfolding execute_withdrawal
  execute_withdrawal_pays a req l authorized pending elapsed moved =
      let sound = pending-NodeIsSound a.state req a.known pending in
      ground (
        arith,
        a.configured,
        a.known,
        reserve-le-free a.state req.amount sound,
        unlocked-fits a.state req.amount sound,
        remainder-fits a.state req.amount sound,
      )

-- A withdrawal that was just requested cannot be executed before the timelock that was configured
-- at the request is over, although the node signs.
pub request_withdrawal_locks :
    {c : Chain} (e later : Env) (node : Address) (amount : ℤ) (w w' : World c)
    → request_withdrawal e node amount w ≡ ok (tt, w')
    → (a : Account node w) → later.timestamp < e.timestamp + a.config.withdraw_timelock
    → IsAuthorized later node
    → execute_withdrawal later node w' ≡ err (Error.vault VaultError.timelock_not_elapsed)
unfolding execute_withdrawal request_withdrawal
request_withdrawal_locks e later node amount w w' h a early authorized =
    ground (arith, a.configured, a.known)
