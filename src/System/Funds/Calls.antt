-- ===== src/System/Funds/Calls.antt =====
-- Whatever call reaches contracts/ from outside, the vault and the router hold what they owe.
use stellar_exit_contracts.System.{Operation, perform, IsWired}
use stellar_exit_contracts.System.Funds.{IsFunded, IsGuarded}
use stellar_exit_contracts.System.Funds.Auction as Auction
use stellar_exit_contracts.System.Funds.Vault as Vault
use stellar_exit_contracts.System.Funds.Others.{router-perform-IsSolvent, queue-perform-IsFunded}
use stellar_exit_contracts.Vault.Operations.Reachable as Reachable
use stellar_exit_contracts.Router.Operations as RouterOperations
use stellar_exit_contracts.Router.Operations.{IsSecure}
use stellar_exit_contracts.Vault.Solvency.{IsSolvent, IsOutside}
use stellar_exit_contracts.Host.Chain.{Address, Env, Chain, World, Sep41}
use stellar_exit_contracts.Host.Call.{ok}
use stellar_exit_contracts.Prelude.{◌≡◌, ◌∙◌, sym, subst, arith}

-- The contract that an operation is one of.
abbrev pub address_of : (c : Chain) → Address → Operation → Address
address_of c self (Operation.vault op) = Chain.vault_address c
address_of c self (Operation.router op) = Chain.router_address c
address_of c self (Operation.queue op) = Chain.queue_address c
address_of c self (Operation.auction op) = self

-- Whichever contract a call from outside goes to, one that succeeds keeps the vault solvent and the
-- escrow covered, also where the contracts call each other on the way, if they are wired as they are
-- deployed, tokens move balances as SEP-41 says, and the addresses of the contracts differ and sign
-- nothing.
pub perform-IsFunded :
    {c : Chain} (self : Address) (op : Operation) (e : Env) (w w' : World c)
    → Sep41 c
    → IsGuarded c self e
    → e.current ≡ address_of c self op
    → IsWired self w
    → IsFunded w
    → perform op e w ≡ ok (tt, w')
    → IsFunded w'
unfolding perform
perform-IsFunded {c} self (Operation.vault op) e w w' law g own v k h =
    let outside : IsOutside e =
      λ signed. ground (arith, own, signed, g.external.uninvoked, g.vault_unsigned) in
    record {
      solvent =
          subst (λ a. IsSolvent a w') own
            (Reachable.perform-IsSolvent op e w w' law outside
              (subst (λ a. IsSolvent a w) (sym own) k.solvent) h);
      secure = Vault.perform-IsSecure law self op e g w w' own v k h;
    }
perform-IsFunded {c} self (Operation.router op) e w w' law g own v k h =
    let outside : IsOutside e =
      λ signed. ground (arith, own, signed, g.external.uninvoked, g.external.router_unsigned) in
    record {
      solvent = router-perform-IsSolvent self e g.external w w' v k op h;
      secure =
          subst (λ a. IsSecure a w') own
            (RouterOperations.perform-IsSecure op e w w' law outside
              (λ same. g.router_vault (sym own ∙ same))
              (subst (λ a. IsSecure a w) (sym own) k.secure) h);
    }
perform-IsFunded self (Operation.queue op) e w w' law g own v k h =
    queue-perform-IsFunded self e g.external w w' v k op h
perform-IsFunded {c} self (Operation.auction op) e w w' law g own v k h =
    Auction.perform-IsFunded law op e (subst (λ a. IsGuarded c a e) (sym own) g) w w' k h
