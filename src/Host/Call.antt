-- ===== src/Host/Call.antt =====
-- A call: it reads and changes the chain's state, or fails, and then the host undoes all that it
-- did. Overflow checks are on in the release profile (Cargo.toml), so arithmetic is checked.
use stellar_exit_contracts.Host.Chain.{Address, Env, is_invoker, enter, Chain, World}
use stellar_exit_contracts.State.Errors.{Error, Trap}
use stellar_exit_contracts.State.Events.{Event}
use stellar_exit_contracts.Prelude.{
  ◌⊎◌, inl, inr, refl, ◌≡◌, ℕ, ◌+◌, ◌-◌, ◌^◌, Bool, ◌||◌, ◌&&◌, Option, some, none, ◌∷◌, ltb, leb,
  ◌==◌, not, true, false, Bool-cases, ==→eq, ==_refl, subst, sym, arith,
}
use stellar_exit_contracts.Prelude.Int.{ℤ, pos, quot, leb_ℤ, fits}

pub data Result {ℓ} (A : Type ℓ) : Type ℓ where
  ok : A → Result A
  err : Error → Result A

-- `current`, `timestamp` and the signatures come as an `Env`; this is what the call does with them.
abbrev pub Call : Chain → Type 0 → Type 0
Call c A = World c → Result (A × World c)

module _ {c : Chain} where
  infixl 5 ◌>>=◌ ◌>>◌
  abbrev pub ◌>>=◌ : {A B : Type 0} → Call c A → (A → Call c B) → Call c B
  ◌>>=◌ m f w = elim (m w) [ ok (a, w') ↦ f a w' | err x ↦ err x ]

  abbrev pub ◌>>◌ : {A B : Type 0} → Call c A → Call c B → Call c B
  m >> k = m >>= λ _. k

  abbrev pub pure : {A : Type 0} → A → Call c A
  pure a w = ok (a, w)

  abbrev pub fail : {A : Type 0} → Error → Call c A
  fail x w = err x

  -- `if bad { return Err(x) }`
  abbrev pub fail_if : Bool → Error → Call c (Unit {0})
  fail_if true x w = err x
  fail_if false x w = ok (tt, w)

  -- `ok_or(x)?`
  abbrev pub ok_or : {A : Type 0} → Option A → Error → Call c A
  ok_or none x w = err x
  ok_or (some a) x w = ok (a, w)

  abbrev pub gets : {A : Type 0} → (World c → A) → Call c A
  gets f w = ok (f w, w)

  abbrev pub modify : (World c → World c) → Call c (Unit {0})
  modify f w = ok (tt, f w)

  -- `a.require_auth()`: the call comes from `a`, or `a` has signed for it.
  abbrev pub require_auth : Env → Address → Call c (Unit {0})
  require_auth e a =
      fail_if (not (is_invoker e.invoker a || e.signed a)) (Error.trap Trap.unauthorized)

  -- A value that is there only if a check of the host passes.
  abbrev checked_if : {A : Type 0} → Bool → A → Call c A
  checked_if true a w = ok (a, w)
  checked_if false a w = err (Error.trap Trap.overflow)

  -- The result of an operation on `i128`, which stops the call where it does not fit.
  abbrev pub checked : ℤ → Call c ℤ
  checked z = checked_if (fits z) z

  -- `a / b` on `i128`, which stops the call at a zero divisor too.
  abbrev pub checked_div : ℤ → ℤ → Call c ℤ
  checked_div a b =
      checked_if (not (leb_ℤ b (pos 0) && leb_ℤ (pos 0) b) && fits (quot a b)) (quot a b)

  -- `a + b` and `a - b` on `u64`.
  abbrev pub add_u64 : ℕ → ℕ → Call c ℕ
  add_u64 a b = checked_if (ltb (a + b) (2 ^ 64)) (a + b)

  abbrev pub sub_u64 : ℕ → ℕ → Call c ℕ
  sub_u64 a b = checked_if (leb b a) (a - b)

  abbrev pub publish : Event → Call c (Unit {0})
  publish x w = ok (tt, record w { events = x ∷ w.events })

  abbrev put_ledger : Option (Chain.Ledger c) → World c → Result (Unit {0} × World c)
  put_ledger none w = err (Error.trap Trap.token_refused)
  put_ledger (some l) w = ok (tt, record w { ledger = l })

  -- `token::Client::new(&e, &token).transfer(&from, &to, &amount)`
  abbrev pub transfer : Env → Address → Address → Address → ℤ → Call c (Unit {0})
  transfer e token from to amount w =
      put_ledger (Chain.transfer c (enter e token) token from to amount w.ledger) w

  -- `TokenClient::new(&e, &token).mint(&to, &amount)`, and `set_admin` likewise
  abbrev pub mint : Env → Address → Address → ℤ → Call c (Unit {0})
  mint e token to amount w = put_ledger (Chain.mint c (enter e token) token to amount w.ledger) w

  abbrev pub hand_on : Env → Address → Address → Call c (Unit {0})
  hand_on e token new_admin w =
      put_ledger (Chain.set_token_admin c (enter e token) token new_admin w.ledger) w

  abbrev reached : {A : Type 0} → Bool → Call c A → Call c A
  reached true m w = m w
  reached false m w = err (Error.trap Trap.no_contract)

  -- A call through a client: the contract at `deployed` answers, and no other address has one.
  abbrev pub call_contract : {A : Type 0} → Env → Address → Address → (Env → Call c A) → Call c A
  call_contract e deployed address m = reached (deployed == address) (m (enter e address))

  bind_result :
      {A B : Type 0} (r : Result (A × World c)) (f : A → Call c B) {b : B} {w' : World c}
      → (elim r as (λ _. Result (B × World c)) [ ok (a, v) ↦ f a v | err x ↦ err x ]) ≡ ok (b, w')
      → (a : A) × (v : World c) × (r ≡ ok (a, v)) × (f a v ≡ ok (b, w'))
  bind_result (ok (a, v)) f h = (a, v, refl, h)
  bind_result (err x) f h = cc

  -- Inversion of a sequence that succeeds.
  pub >>=-eq-ok :
      {A B : Type 0} (m : Call c A) (f : A → Call c B) (w : World c) {b : B} {w' : World c}
      → (m >>= f) w ≡ ok (b, w')
      → (a : A) × (v : World c) × (m w ≡ ok (a, v)) × (f a v ≡ ok (b, w'))
  >>=-eq-ok m f w h = bind_result (m w) f h

  -- A call that ended, with how it ended.
  pub Result-cases :
      {A : Type 0} (r : Result (A × World c))
      → ((x : Error) × (r ≡ err x)) ⊎ ((a : A) × (w : World c) × (r ≡ ok (a, w)))
  Result-cases (ok (a, w)) = inr (a, w, refl)
  Result-cases (err x) = inl (x, refl)

  -- A call through a client that succeeds is the call of the contract that answers.
  pub call_contract-eq-ok :
      {A : Type 0} (e : Env) (deployed address : Address) (m : Env → Call c A) (w w' : World c)
      {a : A}
      → call_contract e deployed address m w ≡ ok (a, w')
      → m (enter e deployed) w ≡ ok (a, w')
  call_contract-eq-ok e deployed address m w w' {a} h = elim (Bool-cases (deployed == address)) [
    | inl here ↦
        subst (λ x. m (enter e x) w ≡ ok (a, w')) (sym (==→eq deployed address here)) (rw here at h)
    | inr elsewhere ↦ absurd (ground arith)
  ]

  -- The contract at the stored address answers.
  pub call_contract-reached :
      {A : Type 0} (e : Env) (deployed address : Address) (m : Env → Call c A) (w : World c)
      → address ≡ deployed
      → call_contract e deployed address m w ≡ m (enter e address) w
  call_contract-reached e deployed address m w here = ground (arith, here, ==_refl deployed)
