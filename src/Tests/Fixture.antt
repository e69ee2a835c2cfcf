-- ===== src/Tests/Fixture.antt =====
-- A chain whose tokens are a table of balances, with the contracts deployed and one exit under way.
-- Addresses: nodes 1 and 2, seller 3, treasury 8, admin 9, USDC 10, the asset 20; the vault 100, the
-- router 101, the queue 102, the auction 103.
use stellar_exit_contracts.State.Vault as VaultState
use stellar_exit_contracts.State.Router as RouterState
use stellar_exit_contracts.State.Auction as AuctionState
use stellar_exit_contracts.Host.Chain.{Address, Env, Chain, World, Sep41}
use stellar_exit_contracts.Prelude.{
  ℕ, ◌≤◌, inl, inr, subst, ap, unwrap_or, Bool-cases, ◌+◌, ◌-◌, ◌≡◌, true, false, ◌&&◌, Option,
  some, none, [], ◌∷◌, leb, ◌==◌, if◌then◌else◌, arith,
}
use stellar_exit_contracts.Prelude.Int.{ℤ, pos, negsuc}

abbrev Balances : Type 0
Balances = Address → Address → ℕ

-- The balances with the holder's balance of the token replaced.
abbrev put : Address → Address → ℕ → Balances → Balances
put token holder n l t h = if (token == t) && (holder == h) then n else l t h

-- `n` taken from the one and given to the other, one after the other.
abbrev move : Address → Address → Address → ℕ → Balances → Balances
move token from to n l =
    let taken = put token from (l token from - n) l in put token to (taken token to + n) taken

abbrev move_table : Address → Address → Address → ℤ → Balances → Option Balances
move_table token from to (pos n) l =
    if leb n (l token from) then some (move token from to n l) else none
move_table token from to (negsuc n) l = none

abbrev mint_table : Address → Address → ℤ → Balances → Option Balances
mint_table token to (pos n) l = some (put token to (l token to + n) l)
mint_table token to (negsuc n) l = none

abbrev pub table_chain : Chain
table_chain = record {
  Ledger = Balances;
  balance = λ l token holder. l token holder;
  transfer = λ e token from to amount l. move_table token from to amount l;
  mint = λ e token to amount l. mint_table token to amount l;
  set_token_admin = λ e token admin l. some l;
  vault_address = 100;
  router_address = 101;
  queue_address = 102;
}

move_lem :
    (token from to n : ℕ) (l : Balances) (t holder : Address)
    → n ≤ l token from
    → move token from to n l t holder + (if (token == t) && (from == holder) then n else 0)
      ≡ l t holder + (if (token == t) && (to == holder) then n else 0)
move_lem token from to n l t holder enough = ground arith

table_moves :
    (token from to n : ℕ) (l l' : Balances)
    → move_table token from to (pos n) l ≡ some l'
    → (t holder : Address)
    → l' t holder + (if (token == t) && (from == holder) then n else 0)
      ≡ l t holder + (if (token == t) && (to == holder) then n else 0)
table_moves token from to n l l' h t holder = elim (Bool-cases (leb n (l token from))) [
  | inl enough ↦
      subst
        (λ (k : Balances).
          k t holder + (if (token == t) && (from == holder) then n else 0)
          ≡ l t holder + (if (token == t) && (to == holder) then n else 0))
        (ap (λ (o : Option Balances). unwrap_or o l) (rw enough at h))
        (move_lem token from to n l t holder (ground arith))
  | inr short ↦ absurd (some-ne-none (rw short at h))
]
  where
    some-ne-none : none ≡ some l' → ⊥
    some-ne-none e = cc

pub table_law : Sep41 table_chain
table_law = record { moves = λ e token from to n l l' h. table_moves token from to n l l' h }

-- A call of `contract` at `now`, signed by `signer` alone, from no contract.
abbrev pub by : Address → Address → ℕ → Env
by signer contract now = record {
  timestamp = now;
  current = contract;
  invoker = none;
  signed = λ a. a == signer;
}

-- A call of `contract` by the contract `invoker`, which nobody signed.
abbrev pub from : Address → Address → ℕ → Env
from invoker contract now = record {
  timestamp = now;
  current = contract;
  invoker = some invoker;
  signed = λ a. false;
}

abbrev pub vault_config : VaultState.Config
vault_config = record {
  admin = 9;
  usdc = 10;
  auction = some 103;
  router = some 101;
  min_deposit = pos 1;
  max_single_fill_bps = 3000;
  withdraw_timelock = 86400;
}

abbrev pub node_one : VaultState.Node
node_one = record { deposited = pos 1000; committed = pos 100; filled = pos 0; joined_at = 0 }

abbrev pub terms_one : VaultState.Appetite
terms_one = record {
  max_exposure = pos 500;
  exposure = pos 100;
  min_discount_bps = 100;
  active = true;
  backed_at = 0;
}

abbrev pub withdrawal_one : VaultState.WithdrawRequest
withdrawal_one = record { amount = pos 200; unlock_at = 5000 }

abbrev pub router_config : RouterState.Config
router_config = record {
  admin = 9;
  vault = 100;
  usdc = 10;
  treasury = 8;
  auction = some 103;
  protocol_fee_bps = 100;
}

abbrev pub escrow_seven : RouterState.Escrow
escrow_seven = record { seller = 3; asset = 20; amount = pos 40 }

-- Node 1 has 1000 USDC in the vault, of which 100 stand behind its bid for exit 7 and 200 wait for a
-- withdrawal; the router holds the 40 tokens of exit 7.
abbrev pub world : World table_chain
world = record {
  vault = record {
    config = some vault_config;
    nodes = (1, node_one) ∷ [];
    appetites = λ node asset. if (1 == node) && (20 == asset) then some terms_one else none;
    withdrawals = λ node. if 1 == node then some withdrawal_one else none;
  };
  router = record { config = some router_config; escrows = (7, escrow_seven) ∷ [] };
  queue = record {
    config = some (record { admin = 9; auction = some 103 });
    queues = λ asset. if 21 == asset then some (4 ∷ 5 ∷ 6 ∷ []) else none;
  };
  auction = record {
    config = some (record { admin = 9; vault = 100; router = 101; queue = 102 });
    next_id = some 8;
    exits =
        (
          7,
          record {
            id = 7;
            seller = 3;
            asset = 20;
            amount = pos 40;
            reference_usdc = pos 120;
            min_accept_usdc = pos 90;
            opened_at = 4000;
            closes_at = 4300;
            status = AuctionState.Status.taking_bids;
            best_node = some 1;
            best_usdc = pos 100;
          },
        )
        ∷ [];
  };
  faucet = record { config = none; drips = λ t. none; tokens = none; last = λ a t. none };
  ledger = put 10 100 1000 (put 20 101 40 (put 10 1 500 (λ token holder. 0)));
  events = [];
}
