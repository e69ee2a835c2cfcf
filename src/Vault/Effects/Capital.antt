-- ===== src/Vault/Effects/Capital.antt =====
-- What the operations on a node's capital have found and done when they succeed.
use stellar_exit_contracts.Vault.Effects.{IsAuthorized, Account, Account-cases}
use stellar_exit_contracts.Vault.Capital.{
  new_node, deposit, request_withdrawal, cancel_withdrawal, execute_withdrawal,
}
use stellar_exit_contracts.State.Vault.{Config, Node, WithdrawRequest}
use stellar_exit_contracts.State.Events.{Event, VaultEvent}
use stellar_exit_contracts.Host.Chain.{Address, Env, Chain, World, enter}
use stellar_exit_contracts.Host.Call.{ok}
use stellar_exit_contracts.Prelude.{
  true, ◌∷◌, ◌+◌, ◌≤◌, ◌≡◌, some, none, arith, inl, inr, Option-cases, unwrap_or,
}
use stellar_exit_contracts.Prelude.Int.{ℤ, pos, ◌+ℤ◌, ◌-ℤ◌, fits, ◌≤ℤ◌, ◌<ℤ◌}
use stellar_exit_contracts.Prelude.Dict.{lookup, insert, update}

module _ {c : Chain} (e : Env) (node : Address) where
  -- The account that a deposit adds to.
  abbrev pub credited : World c → Node
  credited w = unwrap_or (lookup node w.vault.nodes) (new_node e)

  pub record Deposited (amount : ℤ) (w w' : World c) : Type 0 where
    pub config : Config
    pub ledger : Chain.Ledger c
    pub configured : w.vault.config ≡ some config
    pub authorized : IsAuthorized e node
    pub positive : pos 0 <ℤ amount
    pub fit : fits ((credited w).deposited +ℤ amount) ≡ true
    pub moved :
        Chain.transfer c (enter e config.usdc) config.usdc node e.current amount w.ledger
        ≡ some ledger
    pub result : w' ≡ record w {
      vault = record (w.vault) {
        nodes =
            insert node
              (record (credited w) { deposited = (credited w).deposited +ℤ amount })
              w.vault.nodes;
      };
      ledger = ledger;
      events =
          Event.vault (VaultEvent.deposited node amount ((credited w).deposited +ℤ amount))
          ∷ w.events;
    }

  pub deposit-Deposited :
      (amount : ℤ) (w w' : World c) → deposit e node amount w ≡ ok (tt, w') → Deposited amount w w'
  unfolding deposit
  deposit-Deposited amount w w' h = elim (Option-cases w.vault.config) [
    | inl missing ↦ absurd (ground arith)
    | inr (config, configured) ↦
        elim (Option-cases
          (Chain.transfer c (enter e config.usdc) config.usdc node e.current amount w.ledger)) [
            | inl refused ↦ absurd (ground arith)
            | inr (ledger, moved) ↦ record {
              config = config;
              ledger = ledger;
              configured = configured;
              authorized = ground arith;
              positive = ground arith;
              fit = ground arith;
              moved = moved;
              result = ground arith;
            }
          ]
  ]

  pub record Requested (amount : ℤ) (w w' : World c) : Type 0 where
    pub account : Account node w
    pub open account use *
    pub authorized : IsAuthorized e node
    pub positive : pos 0 <ℤ amount
    pub unreserved : w.vault.withdrawals node ≡ none
    pub free : amount ≤ℤ state.deposited -ℤ state.committed
    pub result : w' ≡ record w {
      vault = record (w.vault) {
        withdrawals =
            update node
              (some
                (record { amount = amount; unlock_at = e.timestamp + config.withdraw_timelock }))
              w.vault.withdrawals;
      };
      events =
          Event.vault
            (VaultEvent.withdraw_requested node amount (e.timestamp + config.withdraw_timelock))
          ∷ w.events;
    }

  pub request_withdrawal-Requested :
      (amount : ℤ) (w w' : World c)
      → request_withdrawal e node amount w ≡ ok (tt, w')
      → Requested amount w w'
  unfolding request_withdrawal
  request_withdrawal-Requested amount w w' h = elim (Account-cases node w) [
    | inl missing ↦ absurd (ground arith)
    | inr a ↦ record {
      account = a;
      authorized = ground arith;
      positive = ground arith;
      unreserved = ground arith;
      free = ground arith;
      result = ground arith;
    }
  ]

  pub record Executed (w w' : World c) : Type 0 where
    pub account : Account node w
    pub open account use *
    pub req : WithdrawRequest
    pub ledger : Chain.Ledger c
    pub authorized : IsAuthorized e node
    pub pending : w.vault.withdrawals node ≡ some req
    pub elapsed : req.unlock_at ≤ e.timestamp
    pub free : req.amount ≤ℤ state.deposited -ℤ state.committed
    pub moved :
        Chain.transfer c (enter e config.usdc) config.usdc e.current node req.amount w.ledger
        ≡ some ledger
    pub result : w' ≡ record w {
      vault = record (w.vault) {
        nodes =
            insert node (record state { deposited = state.deposited -ℤ req.amount }) w.vault.nodes;
        withdrawals = update node none w.vault.withdrawals;
      };
      ledger = ledger;
      events =
          Event.vault (VaultEvent.withdrawn node req.amount (state.deposited -ℤ req.amount))
          ∷ w.events;
    }

  pub execute_withdrawal-Executed :
      (w w' : World c) → execute_withdrawal e node w ≡ ok (tt, w') → Executed w w'
  unfolding execute_withdrawal
  execute_withdrawal-Executed w w' h = elim (Account-cases node w) [
    | inl missing ↦ absurd (ground arith)
    | inr a ↦ elim (Option-cases (w.vault.withdrawals node)) [
      | inl idle ↦ absurd (ground arith)
      | inr (req, pending) ↦
          elim (Option-cases (
            Chain.transfer c (enter e a.config.usdc) a.config.usdc e.current node req.amount
              w.ledger)) [
                | inl refused ↦ absurd (ground arith)
                | inr (ledger, moved) ↦ record {
                  account = a;
                  req = req;
                  ledger = ledger;
                  authorized = ground arith;
                  pending = pending;
                  elapsed = ground arith;
                  free = ground arith;
                  moved = moved;
                  result = ground arith;
                }
              ]
    ]
  ]

  -- A cancelled withdrawal leaves only the reservation behind.
  pub cancel_withdrawal_effect :
      (w w' : World c)
      → cancel_withdrawal e node w ≡ ok (tt, w')
      → w'.vault ≡ record (w.vault) { withdrawals = update node none w.vault.withdrawals }
        × (w'.ledger ≡ w.ledger)
  unfolding cancel_withdrawal
  cancel_withdrawal_effect w w' h = ground arith
