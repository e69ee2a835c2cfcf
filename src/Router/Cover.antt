-- ===== src/Router/Cover.antt =====
-- The router's invariant (contracts/settlement_router/src/lib.rs): it holds the tokens that its
-- escrow records say it holds.
pub mod Steps
pub mod Settle
use stellar_exit_contracts.State.Router.{Escrow}
use stellar_exit_contracts.Host.Chain.{Address, Chain, World}
use stellar_exit_contracts.Prelude.{
  ℕ, ◌+◌, ◌≤◌, ◌≡◌, some, none, arith, ◌==◌, if◌then◌else◌, inl, inr, Bool-cases, ==→eq, subst,
  Option,
}
use stellar_exit_contracts.Prelude.Int.{ℤ, pos, pos_part, ◌<ℤ◌}
use stellar_exit_contracts.Prelude.Dict.{
  Dict, lookup, insert, remove, total, lookup-insert, lookup-remove, total-insert, total-remove,
}

-- What a record holds of an asset.
abbrev pub held_of : Address → Escrow → ℕ
held_of asset held = if held.asset == asset then pos_part held.amount else 0

-- All that is in escrow of an asset.
abbrev pub in_escrow : Address → Dict Escrow → ℕ
in_escrow asset escrows = total (held_of asset) escrows

abbrev pub IsPositive : Option Escrow → Type 0
IsPositive none = Unit
IsPositive (some held) = pos 0 <ℤ held.amount

pub record IsCovered {c : Chain} (self : Address) (w : World c) : Type 0 where
  pub positive : (exit_id : ℕ) → IsPositive (lookup exit_id w.router.escrows)
  pub covered :
      (asset : Address) → in_escrow asset w.router.escrows ≤ Chain.balance c w.ledger asset self

-- No record holds nothing, also after a record is written or removed.
module _ (k : ℕ) (escrows : Dict Escrow) (all : (j : ℕ) → IsPositive (lookup j escrows)) where
  pub insert-IsPositive :
      (held : Escrow)
      → pos 0 <ℤ held.amount
      → (j : ℕ) → IsPositive (lookup j (insert k held escrows))
  insert-IsPositive held p j = elim (Bool-cases (k == j)) [
    | inl same ↦ rw (lookup-insert j k held escrows, same) p
    | inr other ↦ rw (lookup-insert j k held escrows, other) (all j)
  ]

  pub remove-IsPositive : (j : ℕ) → IsPositive (lookup j (remove k escrows))
  remove-IsPositive j = elim (Bool-cases (k == j)) [
    | inl same ↦ rw (lookup-remove j k escrows, same) tt
    | inr other ↦ rw (lookup-remove j k escrows, other) (all j)
  ]

module _ (asset : Address) (k : ℕ) (escrows : Dict Escrow) where
  pub in_escrow-insert_new :
      (held : Escrow)
      → lookup k escrows ≡ none
      → in_escrow asset (insert k held escrows) ≡ in_escrow asset escrows + held_of asset held
  in_escrow-insert_new held new = ground (arith, total-insert (held_of asset) k held escrows)

  pub in_escrow-insert :
      (held old : Escrow)
      → lookup k escrows ≡ some old
      → in_escrow asset (insert k held escrows) + held_of asset old
        ≡ in_escrow asset escrows + held_of asset held
  in_escrow-insert held old known = ground (arith, total-insert (held_of asset) k held escrows)

  pub in_escrow-remove :
      (old : Escrow)
      → lookup k escrows ≡ some old
      → in_escrow asset (remove k escrows) + held_of asset old ≤ in_escrow asset escrows
  in_escrow-remove old known = ground (arith, total-remove (held_of asset) k escrows)
