-- ===== src/System/Funds.antt =====
-- The tokens behind what the contracts of contracts/ owe: the vault's USDC and the router's escrow.
pub mod Steps
pub mod Auction
pub mod Vault
pub mod Others
pub mod Calls
use stellar_exit_contracts.System.{IsExternal}
use stellar_exit_contracts.Vault.Solvency.{IsSolvent}
use stellar_exit_contracts.Vault.Operations.Reachable.{Elsewhere-IsSolvent}
use stellar_exit_contracts.Router.Operations.{IsSecure}
use stellar_exit_contracts.Host.Chain.{Address, Env, Chain, World}
use stellar_exit_contracts.Prelude.{◌≡◌, ◌≢◌, false, arith}

-- The vault holds the USDC that the nodes have in it, and the router the tokens that are in escrow.
pub record IsFunded {c : Chain} (w : World c) : Type 0 where
  pub solvent : IsSolvent (Chain.vault_address c) w
  pub secure : IsSecure (Chain.router_address c) w

-- The contracts stand at different addresses, none of which signs, and no contract makes the call.
pub record IsGuarded (c : Chain) (self : Address) (e : Env) : Type 0 where
  pub external : IsExternal self (Chain.router_address c) e
  pub vault_unsigned : e.signed (Chain.vault_address c) ≡ false
  pub router_vault : Chain.router_address c ≢ Chain.vault_address c
  pub self_vault : self ≢ Chain.vault_address c
  pub self_router : self ≢ Chain.router_address c

module _ {c : Chain} {self : Address} {w w' : World c} where
  pub kept-IsSolvent :
      IsSolvent self w → w'.vault ≡ w.vault → w'.ledger ≡ w.ledger → IsSolvent self w'
  kept-IsSolvent s vault ledger =
      Elsewhere-IsSolvent self s
        (record { vault = vault; usdc = λ config h. rw ledger (omega arith) })

  pub kept-IsSecure :
      IsSecure self w → w'.router ≡ w.router → w'.ledger ≡ w.ledger → IsSecure self w'
  kept-IsSecure s router ledger = record {
    cover = record {
      positive = rw router s.cover.positive;
      covered = rw (router, ledger) s.cover.covered;
    };
    fee = rw router s.fee;
  }

-- A step that touches none of it.
pub kept-IsFunded :
    {c : Chain} {w w' : World c}
    → IsFunded w
    → w'.vault ≡ w.vault
    → w'.router ≡ w.router
    → w'.ledger ≡ w.ledger
    → IsFunded w'
kept-IsFunded k vault router ledger = record {
  solvent = kept-IsSolvent k.solvent vault ledger;
  secure = kept-IsSecure k.secure router ledger;
}
