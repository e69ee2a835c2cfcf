-- ===== src/Vault/Storage.antt =====
-- The accessors of contracts/lp_vault/src/storage.rs. What they do to the time to live of an entry
-- changes no value, and is left out.
use stellar_exit_contracts.State.Vault.{Config, Node, Appetite, WithdrawRequest}
use stellar_exit_contracts.State.Errors.{Error, VaultError}
use stellar_exit_contracts.Host.Chain.{Address, Chain}
use stellar_exit_contracts.Host.Call.{Call, gets, ok_or, modify}
use stellar_exit_contracts.Prelude.{Bool, Option, some, none, is_some}
use stellar_exit_contracts.Prelude.Dict.{lookup, insert, update, update₂}

module _ {c : Chain} where
  abbrev pub has_config : Call c Bool
  has_config = gets (λ w. is_some w.vault.config)

  abbrev pub read_config : Call c Config
  read_config w = ok_or w.vault.config (Error.vault VaultError.not_initialized) w

  abbrev pub write_config : Config → Call c (Unit {0})
  write_config config = modify (λ w. record w { vault = record (w.vault) { config = some config } })

  abbrev pub read_node : Address → Call c (Option Node)
  read_node node = gets (λ w. lookup node w.vault.nodes)

  abbrev pub write_node : Address → Node → Call c (Unit {0})
  write_node node state =
      modify
        (λ w. record w { vault = record (w.vault) { nodes = insert node state w.vault.nodes } })

  abbrev pub read_appetite : Address → Address → Call c (Option Appetite)
  read_appetite node asset = gets (λ w. w.vault.appetites node asset)

  abbrev pub write_appetite : Address → Address → Appetite → Call c (Unit {0})
  write_appetite node asset appetite = modify (λ w. record w {
    vault = record (w.vault) { appetites = update₂ node asset (some appetite) w.vault.appetites };
  })

  abbrev pub read_withdrawal : Address → Call c (Option WithdrawRequest)
  read_withdrawal node = gets (λ w. w.vault.withdrawals node)

  abbrev pub write_withdrawal : Address → WithdrawRequest → Call c (Unit {0})
  write_withdrawal node req = modify (λ w. record w {
    vault = record (w.vault) { withdrawals = update node (some req) w.vault.withdrawals };
  })

  abbrev pub clear_withdrawal : Address → Call c (Unit {0})
  clear_withdrawal node = modify (λ w. record w {
    vault = record (w.vault) { withdrawals = update node none w.vault.withdrawals };
  })
