-- ===== src/Vault/Solvency/Arithmetic.antt =====
-- The arithmetic of each operation on one node: what it needs to keep the node sound.
use stellar_exit_contracts.Vault.Solvency.{NodeIsSound}
use stellar_exit_contracts.State.Vault.{Node}
use stellar_exit_contracts.Prelude.{◌≡◌, true, arith}
use stellar_exit_contracts.Prelude.Int.{
  ℤ, pos, pos_part, ◌+ℤ◌, ◌-ℤ◌, ◌≤ℤ◌, ◌<ℤ◌, int_laws, fits, fits→lt, parts_exclusive,
}

pub eq-pos_part : (a : ℤ) → pos 0 ≤ℤ a → a ≡ pos (pos_part a)
eq-pos_part a h = ground arith

module _ (n : Node) (r amount : ℤ) (sound : NodeIsSound n r) where
  pub deposit-NodeIsSound :
      pos 0 <ℤ amount
      → fits (n.deposited +ℤ amount) ≡ true
      → NodeIsSound (record n { deposited = n.deposited +ℤ amount }) r
  deposit-NodeIsSound p fit = omega (int_laws, fits→lt (n.deposited +ℤ amount) fit)

  pub commit-NodeIsSound :
      pos 0 <ℤ amount
      → amount ≤ℤ n.deposited -ℤ n.committed -ℤ r
      → NodeIsSound (record n { committed = n.committed +ℤ amount }) r
  commit-NodeIsSound p free = omega int_laws

  pub release-NodeIsSound :
      pos 0 <ℤ amount
      → amount ≤ℤ n.committed
      → NodeIsSound (record n { committed = n.committed -ℤ amount }) r
  release-NodeIsSound p covered = omega int_laws

  pub pay_out-NodeIsSound :
      pos 0 <ℤ amount
      → amount ≤ℤ n.committed
      → NodeIsSound
          (record n {
            committed = n.committed -ℤ amount;
            deposited = n.deposited -ℤ amount;
            filled = n.filled +ℤ amount;
          })
          r
  pay_out-NodeIsSound p covered =
      omega (int_laws, parts_exclusive (n.deposited -ℤ amount), parts_exclusive amount)

  pub request-NodeIsSound :
      pos 0 <ℤ amount → amount ≤ℤ n.deposited -ℤ n.committed → NodeIsSound n amount
  request-NodeIsSound p free = omega int_laws

module _ (n : Node) (r : ℤ) (sound : NodeIsSound n r) where
  pub unreserved-NodeIsSound : NodeIsSound n (pos 0)
  unreserved-NodeIsSound = omega int_laws

  -- What is reserved can always be taken out.
  pub execute-NodeIsSound : NodeIsSound (record n { deposited = n.deposited -ℤ r }) (pos 0)
  execute-NodeIsSound = omega (int_laws, parts_exclusive (n.deposited -ℤ r), parts_exclusive r)
