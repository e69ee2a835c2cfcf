-- ===== src/Auction/Operations.antt =====
-- The calls of contracts/exit_auction/src/lib.rs that change its state, as one type, and what each
-- does to the table of exits.
use stellar_exit_contracts.Auction.Seller
use stellar_exit_contracts.Auction.Bids
use stellar_exit_contracts.Host.Chain.{Address, Env, Chain, World}
use stellar_exit_contracts.Host.Call.{Call, ok, ◌>>=◌, >>=-eq-ok, pure}
use stellar_exit_contracts.Prelude.{ℕ, ◌≡◌, ◌∙◌, Option, arith}
use stellar_exit_contracts.Prelude.Int.{ℤ}

pub data Operation : Type 0 where
  initialize : Address → Address → Address → Address → Operation
  set_admin : Address → Operation
  open_exit : Address → Address → ℤ → ℤ → ℤ → Option ℕ → Operation
  place_bid : Address → ℕ → ℤ → Operation
  accept_bid cancel close : ℕ → Operation

module _ {c : Chain} where
  unfoldable pub perform : Operation → Env → Call c (Unit {0})
  perform (Operation.initialize admin vault router queue) e =
      Seller.initialize e admin vault router queue
  perform (Operation.set_admin admin) e = Seller.set_admin e admin
  perform (Operation.open_exit seller asset amount reference_usdc min_accept_usdc duration) e =
      Seller.open_exit e seller asset amount reference_usdc min_accept_usdc duration >>= λ _.
      pure tt
  perform (Operation.place_bid node exit_id usdc_amount) e =
      Bids.place_bid e node exit_id usdc_amount
  perform (Operation.accept_bid exit_id) e = Seller.accept_bid e exit_id
  perform (Operation.cancel exit_id) e = Seller.cancel e exit_id
  perform (Operation.close exit_id) e = Bids.close e exit_id

  -- The opening of an exit, with its answer.
  pub open_exit_answer :
      (e : Env) (seller asset : Address) (amount reference_usdc min_accept_usdc : ℤ)
      (duration : Option ℕ) (w w' : World c)
      → perform
          (Operation.open_exit seller asset amount reference_usdc min_accept_usdc duration)
          e
          w
        ≡ ok (tt, w')
      → (id : ℕ) × (Seller.open_exit e seller asset amount reference_usdc min_accept_usdc duration w
          ≡ ok (id, w'))
  unfolding perform
  open_exit_answer e seller asset amount reference_usdc min_accept_usdc duration w w' h =
      let (id, v, done, rest) =
        >>=-eq-ok (Seller.open_exit e seller asset amount reference_usdc min_accept_usdc duration)
          (λ _. pure tt) w h in
      (id, done ∙ ground arith)
