-- ===== src/Tests/Calm.antt =====
-- The fixture with nobody in line, the sale of its exit, and the contracts when they have just been
-- wired.
use stellar_exit_contracts.Tests.Fixture.{table_chain, by, world, vault_config, router_config}
use stellar_exit_contracts.System.Funds.{IsFunded}
use stellar_exit_contracts.System.{IsWired}
use stellar_exit_contracts.Router.{settle, vault_pay_out, pay_fee, split_fee, put_remaining}
use stellar_exit_contracts.Vault.Hooks.{pay_out}
use stellar_exit_contracts.Auction.Seller.{accept_bid}
use stellar_exit_contracts.Auction.Storage.{fill, at_head, queue_head, router_settle}
use stellar_exit_contracts.Queue
use stellar_exit_contracts.Host.Chain.{World}
use stellar_exit_contracts.Host.Call.{Result, ok, err}
use stellar_exit_contracts.Prelude.{◌≡◌, refl, some, none, [], arith}
use stellar_exit_contracts.Prelude.Int.{◌-ℤ◌, ◌+ℤ◌, ◌*ℤ◌, quot, fits}
use stellar_exit_contracts.Prelude.Dict.{lookup, insert, remove, total}

abbrev pub after : {A : Type 0} → Result (A × World table_chain) → World table_chain
after (ok (_, w)) = w
after (err x) = world

-- Nobody waits in a line.
abbrev pub calm : World table_chain
calm = record world { queue = record (world.queue) { queues = λ asset. none } }

abbrev pub calm-IsWired : IsWired 103 calm
calm-IsWired = record {
  vault = vault_config;
  router = router_config;
  queue = record { admin = 9; auction = some 103 };
  auction = record { admin = 9; vault = 100; router = 101; queue = 102 };
  vault_configured = refl;
  router_configured = refl;
  queue_configured = refl;
  auction_configured = refl;
  vault_auction = refl;
  vault_router = refl;
  router_auction = refl;
  queue_auction = refl;
  router_vault = refl;
  auction_vault = refl;
  auction_router = refl;
  auction_queue = refl;
}

pub calm-IsFunded : IsFunded calm
unfolding lookup total ◌+ℤ◌
calm-IsFunded = record {
  solvent = record { accounts = λ b. ground arith; backed = omega arith };
  secure = record {
    cover = record { positive = λ j. ground arith; covered = λ t. ground arith };
    fee = omega arith;
  };
}

abbrev pub accepted : World table_chain
accepted = after (accept_bid (by 3 103 4100) 7 calm)

pub accepting : accept_bid (by 3 103 4100) 7 calm ≡ ok (tt, accepted)
unfolding accept_bid fill at_head queue_head router_settle Queue.head settle split_fee vault_pay_out
    pay_fee put_remaining pay_out lookup insert remove ◌-ℤ◌ ◌+ℤ◌ ◌*ℤ◌ quot fits
accepting = refl

-- The contracts when they have just been wired.
abbrev pub wired : World table_chain
wired = record calm {
  vault = record (calm.vault) { nodes = []; withdrawals = λ node. none };
  router = record (calm.router) { escrows = [] };
  auction = record (calm.auction) { next_id = some 1; exits = [] };
}

pub wired-IsWired : IsWired 103 wired
wired-IsWired = record {
  vault = vault_config;
  router = router_config;
  queue = record { admin = 9; auction = some 103 };
  auction = record { admin = 9; vault = 100; router = 101; queue = 102 };
  vault_configured = refl;
  router_configured = refl;
  queue_configured = refl;
  auction_configured = refl;
  vault_auction = refl;
  vault_router = refl;
  router_auction = refl;
  queue_auction = refl;
  router_vault = refl;
  auction_vault = refl;
  auction_router = refl;
  auction_queue = refl;
}
