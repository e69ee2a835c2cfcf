-- ===== src/Vault/Effects/Terms.antt =====
-- What the operations on a node's terms leave alone: the money and the reservations.
use stellar_exit_contracts.Vault.Terms.{set_appetite, reduce_exposure}
use stellar_exit_contracts.Host.Chain.{Address, Env, Chain, World}
use stellar_exit_contracts.Host.Call.{ok}
use stellar_exit_contracts.Prelude.{ℕ, Bool, ◌≡◌, arith}
use stellar_exit_contracts.Prelude.Int.{ℤ}

module _ {c : Chain} where
  -- All that solvency rests on.
  pub record SameMoney (w w' : World c) : Type 0 where
    pub config : w'.vault.config ≡ w.vault.config
    pub nodes : w'.vault.nodes ≡ w.vault.nodes
    pub withdrawals : w'.vault.withdrawals ≡ w.vault.withdrawals
    pub ledger : w'.ledger ≡ w.ledger

  pub set_appetite-SameMoney :
      (e : Env) (node asset : Address) (max_exposure : ℤ) (min_discount_bps : ℕ) (active : Bool)
      (w w' : World c)
      → set_appetite e node asset max_exposure min_discount_bps active w ≡ ok (tt, w')
      → SameMoney w w'
  unfolding set_appetite
  set_appetite-SameMoney e node asset max_exposure min_discount_bps active w w' h = ground arith

  pub reduce_exposure-SameMoney :
      (e : Env) (node asset : Address) (amount : ℤ) (w w' : World c)
      → reduce_exposure e node asset amount w ≡ ok (tt, w')
      → SameMoney w w'
  unfolding reduce_exposure
  reduce_exposure-SameMoney e node asset amount w w' h = ground arith
