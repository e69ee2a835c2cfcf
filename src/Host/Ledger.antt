-- ===== src/Host/Ledger.antt =====
-- What the documented behaviour of a token says of one holder's balance.
use stellar_exit_contracts.Host.Chain.{Address, Env, Chain, Sep41}
use stellar_exit_contracts.Prelude.{ℕ, ◌+◌, ◌≤◌, ◌≡◌, ◌≢◌, some, arith}
use stellar_exit_contracts.Prelude.Int.{pos}

module _ {c : Chain} (law : Sep41 c) (e : Env) (token from to : Address) (n : ℕ)
    (l l' : Chain.Ledger c) (moved : Chain.transfer c e token from to (pos n) l ≡ some l') where
  pub balance-received : from ≢ to → Chain.balance c l' token to ≡ Chain.balance c l token to + n
  balance-received other = ground (arith, law.moves e token from to n l l' moved token to)

  pub balance-sent : Chain.balance c l token from ≤ Chain.balance c l' token from + n
  balance-sent = ground (arith, law.moves e token from to n l l' moved token from)

  pub balance-sent_other :
      from ≢ to → Chain.balance c l' token from + n ≡ Chain.balance c l token from
  balance-sent_other other = ground (arith, law.moves e token from to n l l' moved token from)

  pub balance-token_other :
      (t holder : Address) → t ≢ token → Chain.balance c l' t holder ≡ Chain.balance c l t holder
  balance-token_other t holder other =
      ground (arith, law.moves e token from to n l l' moved t holder)

  pub balance-holder_other :
      (holder : Address)
      → holder ≢ from
      → holder ≢ to
      → Chain.balance c l' token holder ≡ Chain.balance c l token holder
  balance-holder_other holder not_from not_to =
      ground (arith, law.moves e token from to n l l' moved token holder)

  -- Only the sender's balance falls.
  pub balance-le_other :
      (t holder : Address)
      → holder ≢ from
      → Chain.balance c l t holder ≤ Chain.balance c l' t holder
  balance-le_other t holder other = ground (arith, law.moves e token from to n l l' moved t holder)
