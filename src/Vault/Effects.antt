-- ===== src/Vault/Effects.antt =====
-- What a call of the vault has looked up when it gets past its reads: the ground on which the
-- effects of the operations (contracts/lp_vault/src/contract.rs) are stated.
pub mod Hooks
pub mod Capital
pub mod Terms
use stellar_exit_contracts.State.Vault.{Config, Node, Appetite}
use stellar_exit_contracts.Host.Chain.{Address, Env, Chain, World, is_invoker}
use stellar_exit_contracts.Prelude.{◌||◌, ◌≡◌, ◌⊎◌, inl, inr, true, some, none, Option-cases}
use stellar_exit_contracts.Prelude.Dict.{lookup}

-- The caller is `a`, or `a` has signed.
abbrev pub IsAuthorized : Env → Address → Type 0
IsAuthorized e a = (is_invoker e.invoker a || e.signed a) ≡ true

module _ {c : Chain} where
  -- The vault is initialised and knows the node.
  pub record Account (node : Address) (w : World c) : Type 0 where
    pub config : Config
    pub state : Node
    pub configured : w.vault.config ≡ some config
    pub known : lookup node w.vault.nodes ≡ some state

  -- It also has the node's terms for the asset.
  pub record Backing (node asset : Address) (w : World c) : Type 0 where
    pub account : Account node w
    pub open account use *
    pub appetite : Appetite
    pub declared : w.vault.appetites node asset ≡ some appetite

  pub Account-cases :
      (node : Address) (w : World c)
      → ((w.vault.config ≡ none) ⊎ (lookup node w.vault.nodes ≡ none)) ⊎ Account node w
  Account-cases node w = elim (Option-cases w.vault.config) [
    | inl e ↦ inl (inl e)
    | inr (config, e) ↦ elim (Option-cases (lookup node w.vault.nodes)) [
      | inl u ↦ inl (inr u)
      | inr (state, u) ↦ inr (record { config = config; state = state; configured = e; known = u })
    ]
  ]

  pub Backing-cases :
      (node asset : Address) (w : World c)
      → ((w.vault.config ≡ none)
          ⊎ (lookup node w.vault.nodes ≡ none)
          ⊎ (w.vault.appetites node asset ≡ none))
        ⊎ Backing node asset w
  Backing-cases node asset w = elim (Account-cases node w) [
    | inl (inl e) ↦ inl (inl e)
    | inl (inr u) ↦ inl (inr (inl u))
    | inr account ↦ elim (Option-cases (w.vault.appetites node asset)) [
      | inl u ↦ inl (inr (inr u))
      | inr (appetite, u) ↦ inr (record { account = account; appetite = appetite; declared = u })
    ]
  ]
