-- ===== src/Router/Cover/Steps.antt =====
-- The calls that move tokens in and out of escrow keep it covered.
use stellar_exit_contracts.Router.Cover.{
  IsPositive, IsCovered, insert-IsPositive, remove-IsPositive, in_escrow-insert_new,
  in_escrow-remove,
}
use stellar_exit_contracts.Router.{escrow, refund}
use stellar_exit_contracts.Router.Effects.{escrow-Escrowed, refund-Refunded}
use stellar_exit_contracts.Vault.Effects.{IsAuthorized}
use stellar_exit_contracts.Vault.Solvency.{IsOutside}
use stellar_exit_contracts.Vault.Solvency.Arithmetic.{eq-pos_part}
use stellar_exit_contracts.Host.Chain.{Address, Env, Chain, World, Sep41, enter}
use stellar_exit_contracts.Host.Ledger.{
  balance-received, balance-sent, balance-le_other, balance-token_other,
}
use stellar_exit_contracts.Host.Call.{ok}
use stellar_exit_contracts.Prelude.{
  ℕ, ◌+◌, ◌≤◌, ◌≡◌, ◌≢◌, some, arith, ◌==◌, if◌then◌else◌, inl, inr, Bool-cases, ==→eq, subst,
}
use stellar_exit_contracts.Prelude.Int.{ℤ, pos, pos_part, ◌<ℤ◌}

-- A transfer of a positive amount, by its size.
module _ {c : Chain} (law : Sep41 c) (e : Env) (token from to : Address) (amount : ℤ)
    (l l' : Chain.Ledger c) (positive : pos 0 <ℤ amount)
    (moved : Chain.transfer c e token from to amount l ≡ some l') where
  sized : Chain.transfer c e token from to (pos (pos_part amount)) l ≡ some l'
  sized = rw (← eq-pos_part amount (omega (arith, positive))) moved

  -- What comes in, at every asset.
  pub incoming :
      (asset : Address)
      → from ≢ to
      → Chain.balance c l' asset to
        ≡ Chain.balance c l asset to + (if token == asset then pos_part amount else 0)
  incoming asset other = elim (Bool-cases (token == asset)) [
    | inl same ↦ rw same (
        subst (λ t. Chain.balance c l' t to ≡ Chain.balance c l t to + pos_part amount)
          (==→eq token asset same)
          (balance-received law e token from to (pos_part amount) l l' sized other))
    | inr else_token ↦ rw else_token (
        omega (
          arith,
          balance-token_other law e token from to (pos_part amount) l l' sized asset to
              (ground arith),
        ))
  ]

  -- What goes out, at most.
  pub outgoing :
      (asset : Address)
      → Chain.balance c l asset from
        ≤ Chain.balance c l' asset from + (if token == asset then pos_part amount else 0)
  outgoing asset = elim (Bool-cases (token == asset)) [
    | inl same ↦ rw same (
        subst (λ t. Chain.balance c l t from ≤ Chain.balance c l' t from + pos_part amount)
          (==→eq token asset same) (balance-sent law e token from to (pos_part amount) l l' sized))
    | inr else_token ↦ rw else_token (
        omega (
          arith,
          balance-token_other law e token from to (pos_part amount) l l' sized asset from
              (ground arith),
        ))
  ]

  pub spared :
      (asset holder : Address)
      → holder ≢ from
      → Chain.balance c l asset holder ≤ Chain.balance c l' asset holder
  spared asset holder other =
      balance-le_other law e token from to (pos_part amount) l l' sized asset holder other

module _ {c : Chain} (law : Sep41 c) (e : Env) (exit_id : ℕ) (w w' : World c)
    (s : IsCovered e.current w) where
  pub escrow-IsCovered :
      (seller asset : Address) (amount : ℤ)
      → IsOutside e
      → escrow e exit_id seller asset amount w ≡ ok (tt, w')
      → IsCovered e.current w'
  escrow-IsCovered seller asset amount outside h =
      let f = escrow-Escrowed e exit_id seller asset amount w w' h in
      rw (f.result) (record {
        positive =
            insert-IsPositive exit_id w.router.escrows s.positive
              (record { seller = seller; asset = asset; amount = amount }) f.positive;
        covered = λ t. omega (
          arith,
          s.covered t,
          in_escrow-insert_new t exit_id w.router.escrows
              (record { seller = seller; asset = asset; amount = amount }) f.new,
          incoming law (enter e asset) asset seller e.current amount w.ledger f.ledger f.positive
              f.moved t (λ own. outside (subst (IsAuthorized e) own f.signed)),
        );
      })

  pub refund-IsCovered : refund e exit_id w ≡ ok (tt, w') → IsCovered e.current w'
  refund-IsCovered h =
      let f = refund-Refunded e exit_id w w' h in
      let positive : pos 0 <ℤ f.held.amount = subst IsPositive f.stored (s.positive exit_id) in
      rw (f.result) (record {
        positive = remove-IsPositive exit_id w.router.escrows s.positive;
        covered = λ t. omega (
          arith,
          s.covered t,
          in_escrow-remove t exit_id w.router.escrows f.held f.stored,
          outgoing law (enter e f.held.asset) f.held.asset e.current f.held.seller f.held.amount
              w.ledger f.ledger positive f.moved t,
        );
      })
