-- ===== src/Vault/Quote.antt =====
-- The quote of a node's capacity against what `commit` accepts (contracts/lp_vault/src/contract.rs,
-- `quote_capacity` and `commit`).
use stellar_exit_contracts.Vault.Hooks.{reserved, commit}
use stellar_exit_contracts.Vault.Queries.{quote_capacity}
use stellar_exit_contracts.Vault.Effects.{IsAuthorized, Backing}
use stellar_exit_contracts.Vault.Effects.Hooks.{commit-Committed}
use stellar_exit_contracts.Vault.Solvency.{NodeIsSound, IsSolvent}
use stellar_exit_contracts.State.Vault.{Node, bps_denominator, min_backing_age}
use stellar_exit_contracts.Vault.Solvency.Backed.{found-NodeIsSound}
use stellar_exit_contracts.State.Events.{Event, VaultEvent}
use stellar_exit_contracts.Prelude.Dict.{insert, update₂}
use stellar_exit_contracts.Host.Chain.{Address, Env, Chain, World}
use stellar_exit_contracts.Host.Call.{ok}
use stellar_exit_contracts.Prelude.{ℕ, ◌+◌, ◌≤◌, ◌≡◌, ◌↔◌, ◌∷◌, true, some, arith}
use stellar_exit_contracts.Prelude.Int.{
  ℤ, pos, ◌+ℤ◌, ◌-ℤ◌, ◌*ℤ◌, quot, ◌≤ℤ◌, ◌<ℤ◌, fits, fits_between, fits_of_nonneg, parts_exclusive,
  int_laws, -ℤ_parts, +ℤ_parts,
}

-- The additions of a commitment stay in range where its tests pass.
committed-fits :
    (n : Node) (r amount : ℤ)
    → NodeIsSound n r
    → pos 0 <ℤ amount
    → amount ≤ℤ n.deposited -ℤ n.committed -ℤ r
    → fits (n.committed +ℤ amount) ≡ true
committed-fits n r amount sound positive free =
    fits_of_nonneg (n.committed +ℤ amount) (omega int_laws)
      (omega (int_laws, parts_exclusive (n.committed +ℤ amount), parts_exclusive n.deposited))

exposure-fits :
    (exposure max amount : ℤ)
    → fits exposure ≡ true
    → fits max ≡ true
    → pos 0 <ℤ amount
    → amount ≤ℤ max -ℤ exposure
    → fits (exposure +ℤ amount) ≡ true
exposure-fits exposure max amount ranged ranged_max positive headroom =
    fits_between exposure max (exposure +ℤ amount) ranged ranged_max (omega int_laws)
      (omega int_laws)

module _ {c : Chain} (e : Env) (node asset : Address) (discount_bps : ℕ) (amount cap : ℤ)
    (w : World c) (quoted : quote_capacity e node asset discount_bps w ≡ ok (cap, w))
    (positive : pos 0 <ℤ amount) where
  -- What `commit` accepts is within the quote.
  commit-le-quote :
      (w' : World c) → commit e node asset amount discount_bps w ≡ ok (tt, w') → amount ≤ℤ cap
  unfolding quote_capacity
  commit-le-quote w' h =
      let f = commit-Committed e node asset amount discount_bps w w' h in
      ground (
        arith,
        f.configured,
        f.known,
        f.declared,
        f.active,
        f.aged,
        f.loose,
        f.free,
        f.capped,
        f.headroom,
        -ℤ_parts f.appetite.max_exposure f.appetite.exposure,
        +ℤ_parts f.appetite.exposure amount,
      )

  module _ (b : Backing node asset w) (amount_in_quote : amount ≤ℤ cap) where
    -- A quote that is not zero says that every test of `commit` passes.
    record Acceptable : Type 0 where
      active : b.appetite.active ≡ true
      aged : b.appetite.backed_at + min_backing_age ≤ e.timestamp
      loose : b.appetite.min_discount_bps ≤ discount_bps
      unlocked : fits (b.state.deposited -ℤ b.state.committed) ≡ true
      unreserved :
          fits (b.state.deposited -ℤ b.state.committed -ℤ reserved (w.vault.withdrawals node))
          ≡ true
      scaled : fits (b.state.deposited *ℤ pos b.config.max_single_fill_bps) ≡ true
      free : amount ≤ℤ b.state.deposited -ℤ b.state.committed -ℤ reserved (w.vault.withdrawals node)
      headroom : amount ≤ℤ b.appetite.max_exposure -ℤ b.appetite.exposure
      capped :
          amount
          ≤ℤ quot (b.state.deposited *ℤ pos b.config.max_single_fill_bps) (pos bps_denominator)

    quoted-Acceptable : Acceptable
    unfolding quote_capacity
    quoted-Acceptable = ground (arith, b.configured, b.known, b.declared)

    -- The world that the commitment leaves.
    after : World c
    after = record w {
      vault = record (w.vault) {
        nodes =
            insert node (record (b.state) { committed = b.state.committed +ℤ amount })
              w.vault.nodes;
        appetites =
            update₂ node asset
              (some (record (b.appetite) { exposure = b.appetite.exposure +ℤ amount }))
              w.vault.appetites;
      };
      events = Event.vault (VaultEvent.committed node asset amount) ∷ w.events;
    }

    quoted-commit :
        (auction : Address)
        → IsSolvent e.current w
        → b.config.auction ≡ some auction
        → IsAuthorized e auction
        → fits b.appetite.exposure ≡ true
        → fits b.appetite.max_exposure ≡ true
        → commit e node asset amount discount_bps w ≡ ok (tt, after)
    unfolding commit after
    quoted-commit auction s wired authorized ranged ranged_max =
        let o = quoted-Acceptable in
        let sound = found-NodeIsSound w node s b.state b.known in
        ground (
          arith,
          b.configured,
          b.known,
          b.declared,
          o.active,
          o.aged,
          o.loose,
          o.unlocked,
          o.unreserved,
          o.scaled,
          o.free,
          o.headroom,
          o.capped,
          committed-fits b.state _ amount sound positive o.free,
          exposure-fits b.appetite.exposure b.appetite.max_exposure amount ranged ranged_max
              positive o.headroom,
          -ℤ_parts b.appetite.max_exposure b.appetite.exposure,
          +ℤ_parts b.appetite.exposure amount,
        )

-- The quote is exact: in a solvent vault, a node with stored terms can have a positive amount
-- committed by the wired auction exactly when the amount is at most what `quote_capacity` answers,
-- if the stored exposure and ceiling are in the range of `i128`.
pub commit_iff_quote :
    {c : Chain} (e : Env) (node asset auction : Address) (discount_bps : ℕ) (amount cap : ℤ)
    (w : World c) (b : Backing node asset w)
    → IsSolvent e.current w
    → b.config.auction ≡ some auction
    → IsAuthorized e auction
    → fits b.appetite.exposure ≡ true
    → fits b.appetite.max_exposure ≡ true
    → quote_capacity e node asset discount_bps w ≡ ok (cap, w)
    → pos 0 <ℤ amount
    → ((w' : World c) × (commit e node asset amount discount_bps w ≡ ok (tt, w'))) ↔ amount ≤ℤ cap
commit_iff_quote e node asset auction d amount cap w b s wired auth ranged ranged_max quoted p = (
  λ done. commit-le-quote e node asset d amount cap w quoted p done.0 done.1,
  λ within. (
    after e node asset d amount cap w quoted p b within,
    quoted-commit e node asset d amount cap w quoted p b within auction s wired auth ranged
        ranged_max,
  ),
)
