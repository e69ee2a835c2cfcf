-- ===== src/System/Consistency.antt =====
-- The contracts of contracts/ agree with each other after every call from outside.
use stellar_exit_contracts.System.{Operation, perform, IsWired, IsConsistent, IsExternal}
use stellar_exit_contracts.System.Quiet.{IsQuiet-IsConsistent}
use stellar_exit_contracts.System.Vault.{perform-IsQuiet}
use stellar_exit_contracts.System.Outside.{router-perform-IsQuiet, queue-perform-IsQuiet}
use stellar_exit_contracts.Auction.Operations as AuctionOperations
use stellar_exit_contracts.Auction.Exits.Calls.{perform-IsSound}
use stellar_exit_contracts.Auction.Custody.Calls.{perform-IsHeld}
use stellar_exit_contracts.Auction.Waiting.Calls.{perform-IsLined}
use stellar_exit_contracts.Auction.Waiting.Orderly.{perform-IsOrderly}
use stellar_exit_contracts.Auction.Pledges.Calls.{perform-IsPledged}
use stellar_exit_contracts.Auction.Backed.Calls.{perform-HasTerms}
use stellar_exit_contracts.Host.Chain.{Address, Env, Chain, World}
use stellar_exit_contracts.Host.Call.{ok}
use stellar_exit_contracts.Prelude.{◌≡◌}

module _ {c : Chain} where
  auction-IsConsistent :
      (op : AuctionOperations.Operation) (e : Env) (w w' : World c)
      → IsConsistent w
      → AuctionOperations.perform op e w ≡ ok (tt, w')
      → IsConsistent w'
  auction-IsConsistent op e w w' k h = record {
    sound = perform-IsSound op e w w' k.sound h;
    orderly = perform-IsOrderly op e w w' k.orderly h;
    held = perform-IsHeld op e w w' k.sound k.held h;
    lined = perform-IsLined op e w w' k.sound k.orderly k.lined h;
    pledges = perform-IsPledged op e w w' k.sound k.pledges h;
    backed = perform-HasTerms op e w w' k.backed h;
  }

  -- Whichever contract a call from outside goes to, one that succeeds keeps what the four store in
  -- agreement, if the contracts are wired as they are deployed, and the addresses of the auction
  -- and the router sign nothing.
  pub perform-IsConsistent :
      (self : Address) (op : Operation) (e : Env) (w w' : World c)
      → IsExternal self (Chain.router_address c) e
      → IsWired self w
      → IsConsistent w
      → perform op e w ≡ ok (tt, w')
      → IsConsistent w'
  unfolding perform
  perform-IsConsistent self (Operation.vault op) e w w' x v k h =
      IsQuiet-IsConsistent (perform-IsQuiet self op e w w' x v h) k
  perform-IsConsistent self (Operation.router op) e w w' x v k h =
      IsQuiet-IsConsistent (router-perform-IsQuiet self op e w w' x v h) k
  perform-IsConsistent self (Operation.queue op) e w w' x v k h =
      IsQuiet-IsConsistent (queue-perform-IsQuiet self op e w w' x v h) k
  perform-IsConsistent self (Operation.auction op) e w w' x v k h =
      auction-IsConsistent op e w w' k h
