-- ===== src/Faucet.antt =====
-- testnet/faucet/src/lib.rs: the tap of the test tokens.
pub mod Cooldown
use stellar_exit_contracts.State.Faucet.{Config}
use stellar_exit_contracts.State.Errors.{Error, FaucetError}
use stellar_exit_contracts.State.Events.{Event, FaucetEvent}
use stellar_exit_contracts.Host.Chain.{Address, Env, Chain}
use stellar_exit_contracts.Host.Call.{
  Call, ◌>>=◌, ◌>>◌, fail_if, ok_or, gets, modify, pure, require_auth, publish, mint, hand_on,
}
use stellar_exit_contracts.Prelude.{
  ℕ, ◌+◌, ◌-◌, ◌^◌, Bool, true, false, not, ◌&&◌, Option, some, none, List, [], ◌∷◌, ◌++◌, ltb, leb,
  ◌==◌, is_some, unwrap_or, if◌then◌else◌,
}
use stellar_exit_contracts.Prelude.Int.{ℤ, pos, ltb_ℤ, leb_ℤ}
use stellar_exit_contracts.Prelude.Lists.{contains}
use stellar_exit_contracts.Prelude.Dict.{update, update₂}

-- `a.saturating_add(b)` on `u64`
unfoldable pub saturating_add : ℕ → ℕ → ℕ
saturating_add a b = if ltb (a + b) (2 ^ 64) then a + b else 2 ^ 64 - 1

-- When a claim may follow one at `last`, and whether it comes before that; 0 is no claim at all.
abbrev pub too_soon : ℕ → ℕ → ℕ → Bool
too_soon last cooldown now = not (last == 0) && ltb now (saturating_add last cooldown)

-- The answer of `next_claim` when there was a claim at `last`.
abbrev pub next_after : ℕ → ℕ → ℕ → ℕ
next_after last cooldown now =
    if last == 0
    then 0
    else (if leb (saturating_add last cooldown) now then 0 else saturating_add last cooldown)

module _ {c : Chain} where
  abbrev pub read_config : Call c Config
  read_config w = ok_or w.faucet.config (Error.faucet FaucetError.not_initialized) w

  abbrev pub write_config : Config → Call c (Unit {0})
  write_config config =
      modify (λ w. record w { faucet = record (w.faucet) { config = some config } })

  abbrev pub write_tokens : List Address → Call c (Unit {0})
  write_tokens tokens =
      modify (λ w. record w { faucet = record (w.faucet) { tokens = some tokens } })

  abbrev pub drip_of : Address → Call c ℤ
  drip_of token = gets (λ w. unwrap_or (w.faucet.drips token) (pos 0))

  abbrev pub tokens_of : Call c (List Address)
  tokens_of = gets (λ w. unwrap_or w.faucet.tokens [])

  abbrev pub last_of : Address → Address → Call c ℕ
  last_of who token = gets (λ w. unwrap_or (w.faucet.last who token) 0)

  unfoldable pub initialize : Env → Address → ℕ → Call c (Unit {0})
  initialize e admin cooldown = do
    found ← gets (λ w. is_some w.faucet.config)
    fail_if found (Error.faucet FaucetError.already_initialized)
    write_config (record { admin = admin; cooldown = cooldown })
    write_tokens []

  -- `if !tokens.iter().any(|t| t == token) { push_back }`
  abbrev listed : Bool → List Address → Address → Call c (Unit {0})
  listed true tokens token = pure tt
  listed false tokens token = write_tokens (tokens ++ token ∷ [])

  unfoldable pub set_drip : Env → Address → ℤ → Call c (Unit {0})
  set_drip e token amount = do
    config ← read_config
    require_auth e config.admin
    fail_if (ltb_ℤ amount (pos 0)) (Error.faucet FaucetError.invalid_amount)
    modify (λ w. record w {
      faucet = record (w.faucet) { drips = update token (some amount) w.faucet.drips };
    })
    tokens ← tokens_of
    listed (contains token tokens) tokens token
    publish (Event.faucet (FaucetEvent.drip_set token amount))

  unfoldable pub set_cooldown : Env → ℕ → Call c (Unit {0})
  set_cooldown e cooldown = do
    config ← read_config
    require_auth e config.admin
    write_config (record config { cooldown = cooldown })

  unfoldable pub set_token_admin : Env → Address → Address → Call c (Unit {0})
  set_token_admin e token new_admin = do
    config ← read_config
    require_auth e config.admin
    hand_on e token new_admin

  unfoldable pub claim : Env → Address → Address → Call c ℤ
  claim e to token = do
    config ← read_config
    require_auth e to
    amount ← drip_of token
    fail_if (leb_ℤ amount (pos 0)) (Error.faucet FaucetError.unknown_token)
    last ← last_of to token
    fail_if (too_soon last config.cooldown e.timestamp) (Error.faucet FaucetError.too_soon)
    modify (λ w. record w {
      faucet = record (w.faucet) { last = update₂ to token (some e.timestamp) w.faucet.last };
    })
    mint e token to amount
    publish (
        Event.faucet
          (FaucetEvent.claimed token to amount (saturating_add e.timestamp config.cooldown)))
    pure amount

  unfoldable pub drip : Address → Call c ℤ
  drip token = drip_of token

  unfoldable pub tokens : Call c (List Address)
  tokens = tokens_of

  unfoldable pub next_claim : Env → Address → Address → Call c ℕ
  next_claim e who token = do
    config ← read_config
    last ← last_of who token
    pure (next_after last config.cooldown e.timestamp)

  unfoldable pub get_config : Call c Config
  get_config = read_config
