-- ===== src/Host/Chain.antt =====
-- What surrounds a call: its environment (`Env`), the token contracts, which are not part of the
-- repository, and the state of the whole chain.
use stellar_exit_contracts.State.Vault as VaultState
use stellar_exit_contracts.State.Router as RouterState
use stellar_exit_contracts.State.Queue as QueueState
use stellar_exit_contracts.State.Auction as AuctionState
use stellar_exit_contracts.State.Faucet as FaucetState
use stellar_exit_contracts.State.Events.{Event}
use stellar_exit_contracts.Prelude.{
  ℕ, ◌+◌, ◌≡◌, Bool, false, ◌&&◌, Option, some, none, List, ◌==◌, if◌then◌else◌,
}
use stellar_exit_contracts.Prelude.Int.{ℤ, pos}

-- Accounts and contracts alike.
abbrev pub Address : Type 0
Address = ℕ

-- `signed a` says whether `a` signed for this invocation; `invoker` is the contract that makes the
-- call, if a contract makes it, and `current` the one that runs.
pub record Env : Type 0 where
  pub timestamp : ℕ
  pub current : Address
  pub invoker : Option Address
  pub signed : Address → Bool

abbrev pub is_invoker : Option Address → Address → Bool
is_invoker none a = false
is_invoker (some c) a = c == a

-- A contract call of `callee` from the contract that runs.
abbrev pub enter : Env → Address → Env
enter e callee = record e { current = callee; invoker = some e.current }

-- The host's parts that are not in the repository: the ledger that the token contracts keep, their
-- operations, which get the environment that they run in, and where the contracts are deployed.
pub record Chain : Type 1 where
  pub Ledger : Type 0
  pub balance : Ledger → Address → Address → ℕ
  pub transfer : Env → Address → Address → Address → ℤ → Ledger → Option Ledger
  pub mint : Env → Address → Address → ℤ → Ledger → Option Ledger
  pub set_token_admin : Env → Address → Address → Ledger → Option Ledger
  pub vault_address : Address
  pub router_address : Address
  pub queue_address : Address

pub record World (c : Chain) : Type 0 where
  pub vault : VaultState.Storage
  pub router : RouterState.Storage
  pub queue : QueueState.Storage
  pub auction : AuctionState.Storage
  pub faucet : FaucetState.Storage
  pub ledger : Chain.Ledger c
  pub events : List Event

-- What SEP-41 documents of a transfer that succeeds: the amount is not negative, it leaves the one
-- balance and enters the other, and no other balance moves.
pub record Sep41 (c : Chain) : Type 0 where
  pub moves :
      (e : Env) (token from to : Address) (n : ℕ) (l l' : Chain.Ledger c)
      → Chain.transfer c e token from to (pos n) l ≡ some l'
      → (t holder : Address)
      → Chain.balance c l' t holder + (if (token == t) && (from == holder) then n else 0)
        ≡ Chain.balance c l t holder + (if (token == t) && (to == holder) then n else 0)
