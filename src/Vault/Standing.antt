-- ===== src/Vault/Standing.antt =====
-- Terms that a node widens while they stand (contracts/lp_vault/src/contract.rs, `set_appetite` and
-- `commit`).
use stellar_exit_contracts.Vault.Terms.{set_appetite}
use stellar_exit_contracts.Vault.Effects.Terms.{SameMoney, set_appetite-SameMoney}
use stellar_exit_contracts.Vault.Hooks.{commit}
use stellar_exit_contracts.Vault.Effects.{Backing}
use stellar_exit_contracts.Vault.Effects.Hooks.{Committed, commit-Committed}
use stellar_exit_contracts.State.Errors.{Error}
use stellar_exit_contracts.State.Vault.{Appetite}
use stellar_exit_contracts.Prelude.Dict.{lookup}
use stellar_exit_contracts.Host.Chain.{Address, Env, Chain, World}
use stellar_exit_contracts.Host.Call.{ok, err, Result-cases}
use stellar_exit_contracts.Prelude.{
  ℕ, ◌≤◌, ◌≡◌, ◌≢◌, ap, ◌∙◌, inl, inr, refl, true, some, arith, ==_refl,
}
use stellar_exit_contracts.Prelude.Int.{ℤ, ◌≤ℤ◌, +ℤ_parts}

-- Declaring active terms over live ones changes the ceiling and the floor only: the age and the
-- exposure are kept.
set_appetite_keeps_age :
    {c : Chain} (e : Env) (node asset : Address) (max_exposure : ℤ) (min_discount_bps : ℕ)
    (w w' : World c) (b : Backing node asset w)
    → b.appetite.active ≡ true
    → set_appetite e node asset max_exposure min_discount_bps true w ≡ ok (tt, w')
    → w'.vault.appetites node asset
      ≡ some
          (record (b.appetite) { max_exposure = max_exposure; min_discount_bps = min_discount_bps })
unfolding set_appetite
set_appetite_keeps_age e node asset max min w w' b active h =
    ground (arith, b.declared, b.known, ==_refl node, ==_refl asset)

-- What `commit` needs of a world whose terms were widened after it would have succeeded.
accepted :
    {c : Chain} (e : Env) (node asset : Address) (amount : ℤ) (discount_bps : ℕ) (max_exposure : ℤ)
    (min_discount_bps : ℕ) (w v w' : World c) (f : Committed e node asset amount discount_bps w v)
    → commit e node asset amount discount_bps w ≡ ok (tt, v)
    → SameMoney w w'
    → w'.vault.appetites node asset
      ≡ some
          (record (f.appetite) { max_exposure = max_exposure; min_discount_bps = min_discount_bps })
    → f.appetite.max_exposure ≤ℤ max_exposure
    → min_discount_bps ≤ f.appetite.min_discount_bps
    → (x : Error) → commit e node asset amount discount_bps w' ≢ err x
unfolding commit
accepted e node asset amount d max min w v w' f h m kept higher lower x =
    let configured = m.config ∙ f.configured in
    let known = ap (lookup node) m.nodes ∙ f.known in
    let pending = ap (λ p. p node) m.withdrawals in
    λ refused. absurd (
      ground (
        arith,
        f.configured,
        f.known,
        f.declared,
        configured,
        known,
        pending,
        kept,
        f.wired,
        +ℤ_parts f.appetite.exposure amount,
      ))

-- A node that widens live terms, by a ceiling that is not lower and a floor that is not higher,
-- loses no commitment by it: what could be committed on the old terms can be committed just after
-- on the new ones, with the same accounts after it, since the backing keeps its age and its
-- exposure.
pub widened_terms_keep_commits :
    {c : Chain} (e later : Env) (node asset : Address) (max_exposure amount : ℤ)
    (min_discount_bps discount_bps : ℕ) (w w' v : World c) (terms : Appetite)
    → w.vault.appetites node asset ≡ some terms
    → terms.max_exposure ≤ℤ max_exposure
    → min_discount_bps ≤ terms.min_discount_bps
    → set_appetite e node asset max_exposure min_discount_bps true w ≡ ok (tt, w')
    → commit later node asset amount discount_bps w ≡ ok (tt, v)
    → (v' : World c) × (commit later node asset amount discount_bps w' ≡ ok (tt, v'))
      × (v'.vault.nodes ≡ v.vault.nodes)
widened_terms_keep_commits e later node asset max amount min d w w' v terms declared higher lower
      set done =
    let f = commit-Committed later node asset amount d w v done in
    let m = set_appetite-SameMoney e node asset max min true w w' set in
    let own : f.appetite ≡ terms = ground (arith, declared, f.declared) in
    let kept = set_appetite_keeps_age e node asset max min w w' f.backing f.active set in
    elim (Result-cases (commit later node asset amount d w')) [
      | inl (x, refused) ↦ absurd (
          accepted later node asset amount d max min w v w' f done m kept (rw own higher)
            (rw own lower) x refused)
      | inr (_, v', again) ↦
          let g = commit-Committed later node asset amount d w' v' again in
          let state : g.state ≡ f.state = ground (arith, g.known, f.known, m.nodes) in
          (v', again, rw (g.result, f.result, state, m.nodes) refl)
    ]
