-- ===== src/Router.antt =====
-- contracts/settlement_router/src/lib.rs: the escrow, and the settlement of an exit.
pub mod Effects
pub mod Fees
pub mod Settlement
pub mod Payment
pub mod Cover
pub mod Operations
pub mod Gone
pub mod Once
pub mod Balances
pub mod Progress
pub mod Settling
use stellar_exit_contracts.Vault.Hooks.{pay_out}
use stellar_exit_contracts.State.Vault.{bps_denominator}
use stellar_exit_contracts.State.Router.{Config, Escrow, max_protocol_fee_bps}
use stellar_exit_contracts.State.Errors.{Error, RouterError}
use stellar_exit_contracts.State.Events.{Event, RouterEvent}
use stellar_exit_contracts.Host.Chain.{Address, Env, Chain}
use stellar_exit_contracts.Host.Call.{
  Call, ◌>>=◌, ◌>>◌, fail_if, ok_or, gets, modify, pure, require_auth, checked, publish, transfer,
  call_contract,
}
use stellar_exit_contracts.Prelude.{
  ℕ, ◌||◌, ◌&&◌, Bool, Option, some, none, ltb, is_some, if◌then◌else◌,
}
use stellar_exit_contracts.Prelude.Int.{ℤ, pos, ◌-ℤ◌, ◌*ℤ◌, quot, ltb_ℤ, leb_ℤ}
use stellar_exit_contracts.Prelude.Dict.{lookup, insert, remove}

module _ {c : Chain} where
  abbrev pub read_config : Call c Config
  read_config w = ok_or w.router.config (Error.router RouterError.not_initialized) w

  abbrev pub write_config : Config → Call c (Unit {0})
  write_config config =
      modify (λ w. record w { router = record (w.router) { config = some config } })

  abbrev pub require_auction : Env → Call c Config
  require_auction e = do
    config ← read_config
    auction ← ok_or config.auction (Error.router RouterError.not_wired)
    require_auth e auction
    pure config

  abbrev pub read_escrow : ℕ → Call c (Option Escrow)
  read_escrow exit_id = gets (λ w. lookup exit_id w.router.escrows)

  abbrev pub write_escrow : ℕ → Escrow → Call c (Unit {0})
  write_escrow exit_id held = modify (λ w. record w {
    router = record (w.router) { escrows = insert exit_id held w.router.escrows };
  })

  abbrev pub remove_escrow : ℕ → Call c (Unit {0})
  remove_escrow exit_id =
      modify
        (λ w. record w { router = record (w.router) { escrows = remove exit_id w.router.escrows } })

  unfoldable pub initialize : Env → Address → Address → Address → Address → ℕ → Call c (Unit {0})
  initialize e admin vault usdc treasury protocol_fee_bps = do
    found ← gets (λ w. is_some w.router.config)
    fail_if found (Error.router RouterError.already_initialized)
    fail_if (ltb max_protocol_fee_bps protocol_fee_bps) (Error.router RouterError.invalid_bps)
    write_config (record {
      admin = admin;
      vault = vault;
      usdc = usdc;
      treasury = treasury;
      auction = none;
      protocol_fee_bps = protocol_fee_bps;
    })

  unfoldable pub set_auction : Env → Address → Call c (Unit {0})
  set_auction e auction = do
    config ← read_config
    require_auth e config.admin
    write_config (record config { auction = some auction })

  unfoldable pub set_admin : Env → Address → Call c (Unit {0})
  set_admin e new_admin = do
    config ← read_config
    require_auth e config.admin
    write_config (record config { admin = new_admin })

  unfoldable pub set_treasury : Env → Address → Call c (Unit {0})
  set_treasury e treasury = do
    config ← read_config
    require_auth e config.admin
    write_config (record config { treasury = treasury })

  unfoldable pub set_protocol_fee_bps : Env → ℕ → Call c (Unit {0})
  set_protocol_fee_bps e bps = do
    config ← read_config
    require_auth e config.admin
    fail_if (ltb max_protocol_fee_bps bps) (Error.router RouterError.invalid_bps)
    write_config (record config { protocol_fee_bps = bps })

  unfoldable pub escrow : Env → ℕ → Address → Address → ℤ → Call c (Unit {0})
  escrow e exit_id seller asset amount = do
    config ← require_auction e
    require_auth e seller
    fail_if (leb_ℤ amount (pos 0)) (Error.router RouterError.invalid_amount)
    found ← read_escrow exit_id
    fail_if (is_some found) (Error.router RouterError.already_escrowed)
    transfer e asset seller e.current amount
    write_escrow exit_id (record { seller = seller; asset = asset; amount = amount })
    publish (Event.router (RouterEvent.escrowed asset exit_id seller amount))

  -- `VaultClient::new(&e, &config.vault).pay_out(…)`
  unfoldable pub vault_pay_out : Env → Config → Address → Address → Address → ℤ → Call c (Unit {0})
  vault_pay_out e config node asset to amount =
      call_contract e (Chain.vault_address c) config.vault
        (λ inner. pay_out inner node asset to amount)

  -- `if remaining == 0 { remove } else { write }`
  unfoldable pub put_remaining : ℕ → Escrow → ℤ → Call c (Unit {0})
  put_remaining exit_id held remaining =
      if leb_ℤ remaining (pos 0) && leb_ℤ (pos 0) remaining
      then remove_escrow exit_id
      else write_escrow exit_id (record held { amount = remaining })

  unfoldable pub pay_fee : Env → Config → Address → Address → ℤ → Call c (Unit {0})
  pay_fee e config node asset fee =
      if ltb_ℤ (pos 0) fee then vault_pay_out e config node asset config.treasury fee else pure tt

  -- The fee on a gross amount, and what is left for the seller.
  unfoldable pub split_fee : Config → ℤ → Call c (ℤ × ℤ)
  split_fee config gross = do
    scaled ← checked (gross *ℤ pos config.protocol_fee_bps)
    let fee = quot scaled (pos bps_denominator)
    net ← checked (gross -ℤ fee)
    pure (fee, net)

  unfoldable pub settle : Env → ℕ → Address → ℤ → ℤ → Call c (Unit {0})
  settle e exit_id node token_amount usdc_amount = do
    config ← require_auction e
    fail_if (leb_ℤ token_amount (pos 0) || leb_ℤ usdc_amount (pos 0))
        (Error.router RouterError.invalid_amount)
    found ← read_escrow exit_id
    held ← ok_or found (Error.router RouterError.nothing_escrowed)
    fail_if (ltb_ℤ held.amount token_amount) (Error.router RouterError.exceeds_escrow)
    shares ← split_fee config usdc_amount
    vault_pay_out e config node held.asset held.seller shares.1
    pay_fee e config node held.asset shares.0
    transfer e held.asset e.current node token_amount
    remaining ← checked (held.amount -ℤ token_amount)
    put_remaining exit_id held remaining
    publish (
        Event.router (
          RouterEvent.settled held.asset exit_id held.seller node token_amount usdc_amount shares.0
            shares.1 remaining))

  unfoldable pub refund : Env → ℕ → Call c (Unit {0})
  refund e exit_id = do
    config ← require_auction e
    found ← read_escrow exit_id
    held ← ok_or found (Error.router RouterError.nothing_escrowed)
    remove_escrow exit_id
    transfer e held.asset e.current held.seller held.amount
    publish (Event.router (RouterEvent.refunded held.asset exit_id held.seller held.amount))

  unfoldable pub get_config : Call c Config
  get_config = read_config

  unfoldable pub get_escrow : ℕ → Call c (Option Escrow)
  get_escrow exit_id = read_escrow exit_id

  unfoldable pub quote_net : ℤ → Call c ℤ
  unfolding split_fee
  quote_net usdc_amount = do
    config ← read_config
    fail_if (leb_ℤ usdc_amount (pos 0)) (Error.router RouterError.invalid_amount)
    shares ← split_fee config usdc_amount
    pure shares.1
