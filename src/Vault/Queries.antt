-- ===== src/Vault/Queries.antt =====
-- contracts/lp_vault/src/contract.rs, "Queries".
use stellar_exit_contracts.Vault.Storage.{read_config, read_node, read_appetite, read_withdrawal}
use stellar_exit_contracts.Vault.Hooks.{reserved}
use stellar_exit_contracts.State.Vault.{
  Config, Node, Appetite, WithdrawRequest, bps_denominator, min_backing_age,
}
use stellar_exit_contracts.State.Errors.{Error, VaultError}
use stellar_exit_contracts.Host.Chain.{Address, Env, Chain}
use stellar_exit_contracts.Host.Call.{Call, ◌>>=◌, ok_or, gets, pure, checked, sub_u64}
use stellar_exit_contracts.Prelude.{ℕ, ◌||◌, Option, some, none, ltb, not, if◌then◌else◌}
use stellar_exit_contracts.Prelude.Int.{ℤ, pos, ◌-ℤ◌, ◌*ℤ◌, quot, ltb_ℤ}

-- `if b < a { b } else { a }`, the running minimum of `quote_capacity`.
abbrev pub at_most : ℤ → ℤ → ℤ
at_most a b = if ltb_ℤ b a then b else a

-- `if a < 0 { 0 } else { a }`
abbrev pub floor_zero : ℤ → ℤ
floor_zero a = if ltb_ℤ a (pos 0) then pos 0 else a

module _ {c : Chain} where
  unfoldable pub get_config : Call c Config
  get_config = read_config

  unfoldable pub get_node : Address → Call c Node
  get_node node = do found ← read_node node; ok_or found (Error.vault VaultError.unknown_node)

  unfoldable pub get_appetite : Address → Address → Call c Appetite
  get_appetite node asset = do
    found ← read_appetite node asset
    ok_or found (Error.vault VaultError.no_appetite)

  unfoldable pub get_withdrawal : Address → Call c (Option WithdrawRequest)
  get_withdrawal node = read_withdrawal node

  -- `match found { Some(a) => a, None => return early }`, and what follows.
  abbrev or_return : {A B : Type 0} → Option A → B → (A → Call c B) → Call c B
  or_return none early follows = pure early
  or_return (some a) early follows = follows a

  unfoldable pub free_balance : Address → Call c ℤ
  free_balance node = do
    found ← read_node node
    or_return found (pos 0) λ state. do
      pending ← read_withdrawal node
      unlocked ← checked (state.deposited -ℤ state.committed)
      free ← checked (unlocked -ℤ reserved pending)
      pure (floor_zero free)

  -- The largest amount that all three limits allow.
  unfoldable pub capacity_of : Config → Node → Appetite → ℤ → Call c ℤ
  capacity_of config state appetite reserve = do
    unlocked ← checked (state.deposited -ℤ state.committed)
    free ← checked (unlocked -ℤ reserve)
    headroom ← checked (appetite.max_exposure -ℤ appetite.exposure)
    scaled ← checked (state.deposited *ℤ pos config.max_single_fill_bps)
    pure (floor_zero (at_most (at_most free headroom) (quot scaled (pos bps_denominator))))

  -- What `quote_capacity` answers for the terms that it found. The age is read only for terms that
  -- are active and loose enough, as by `||`.
  capacity_under : Env → Config → Node → Appetite → Address → ℕ → Call c ℤ
  unfolding capacity_of
  capacity_under e config state appetite node discount_bps =
      let aged = (do
        pending ← read_withdrawal node
        capacity_of config state appetite (reserved pending)) in
      let backed = (do
        age ← sub_u64 e.timestamp appetite.backed_at
        if ltb age min_backing_age then pure (pos 0) else aged) in
      if not appetite.active || ltb discount_bps appetite.min_discount_bps
      then pure (pos 0)
      else backed

  unfoldable pub quote_capacity : Env → Address → Address → ℕ → Call c ℤ
  unfolding capacity_under
  quote_capacity e node asset discount_bps = do
    stored ← gets (λ w. w.vault.config)
    or_return stored (pos 0) λ config. do
      found ← read_node node
      or_return found (pos 0) λ state. do
        terms ← read_appetite node asset
        or_return terms (pos 0) λ appetite. capacity_under e config state appetite node discount_bps
