-- ===== src/State/Queue.antt =====
-- contracts/fifo_queue/src/lib.rs: the queue's types and storage.
use stellar_exit_contracts.Prelude.{ℕ, Option, List}

pub record Config : Type 0 where
  pub admin : ℕ
  pub auction : Option ℕ

-- `none` under an asset is a key that was never written, which the code reads as no exits.
pub record Storage : Type 0 where
  pub config : Option Config
  pub queues : ℕ → Option (List ℕ)

abbrev pub max_queue_depth : ℕ
max_queue_depth = 200
