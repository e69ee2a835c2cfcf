-- ===== src/Router/Settling.antt =====
-- Both legs of a settlement succeed (contracts/settlement_router/src/lib.rs, `settle`).
use stellar_exit_contracts.Router.{settle}
use stellar_exit_contracts.Router.Effects.{Wired}
use stellar_exit_contracts.Router.Fees.{fee_of, fee_of_bounds, split_fee_succeeds}
use stellar_exit_contracts.Router.Progress.{
  CanPay, part-CanPay, rest-CanPay, paid, Levies, vault_pay_out_succeeds, pay_fee_succeeds,
  put_remaining_succeeds,
}
use stellar_exit_contracts.Router.Settlement.{left_over}
use stellar_exit_contracts.Router.Payment.{charged}
use stellar_exit_contracts.Vault.Effects.{IsAuthorized, Backing}
use stellar_exit_contracts.State.Router.{Config, Escrow, max_protocol_fee_bps}
use stellar_exit_contracts.State.Events.{Event, RouterEvent}
use stellar_exit_contracts.Host.Chain.{Address, Env, Chain, World, enter}
use stellar_exit_contracts.Host.Call.{ok}
use stellar_exit_contracts.Prelude.{ℕ, ◌≤◌, ◌≡◌, ap, subst, true, ◌∙◌, some, ◌∷◌, arith, ==_refl}
use stellar_exit_contracts.Prelude.Int.{
  ℤ, pos, ◌-ℤ◌, ◌*ℤ◌, ◌≤ℤ◌, ◌<ℤ◌, fits, fits_zero, fits_between, -ℤ_parts, int_laws,
}
use stellar_exit_contracts.Prelude.Dict.{lookup, lookup-insert_self}

-- The tokens make the transfers of a settlement, one after the other.
pub record Delivers (c : Chain) (e : Env) (config : Config) (usdc node : Address) (held : Escrow)
    (token_amount usdc_amount : ℤ) (l : Chain.Ledger c) : Type 0 where
  pub after_seller : Chain.Ledger c
  pub after_treasury : Chain.Ledger c
  pub after_node : Chain.Ledger c
  pub to_seller :
      Chain.transfer c
        (enter (enter e config.vault) usdc)
        usdc
        config.vault
        held.seller
        (usdc_amount -ℤ fee_of config usdc_amount)
        l
      ≡ some after_seller
  pub to_treasury :
      Levies c
        (enter e config.vault)
        usdc
        config.treasury
        (fee_of config usdc_amount)
        after_seller
        after_treasury
  pub to_node :
      Chain.transfer c (enter e held.asset) held.asset e.current node token_amount after_treasury
      ≡ some after_node

the_rest : (gross fee : ℤ) → gross -ℤ (gross -ℤ fee) ≡ fee
the_rest gross fee = omega int_laws

module _ {c : Chain} where
  left_over-frame :
      (i : ℕ) (held : Escrow) (remaining : ℤ) (w : World c)
      → ((left_over i held remaining w).auction ≡ w.auction)
        × ((left_over i held remaining w).queue ≡ w.queue)
        × ((left_over i held remaining w).ledger ≡ w.ledger)
  unfolding left_over
  left_over-frame i held remaining w = (ground arith, ground arith, ground arith)

  -- The wired auction can have a record settled, in part or whole, at a bid that the node's account
  -- covers, if the fee's product and the sums are in the range of `i128` and the tokens make the
  -- transfers.
  pub settle_succeeds :
      (e : Env) (exit_id : ℕ) (node : Address) (token_amount usdc_amount : ℤ) (w : World c)
      (v : Wired w) (held : Escrow) (b : Backing node held.asset w)
      → v.config.vault ≡ Chain.vault_address c
      → IsAuthorized e v.auction
      → b.config.router ≡ some e.current
      → lookup exit_id w.router.escrows ≡ some held
      → v.config.protocol_fee_bps ≤ max_protocol_fee_bps
      → pos 0 <ℤ token_amount
      → token_amount ≤ℤ held.amount
      → fits held.amount ≡ true
      → pos 0 <ℤ usdc_amount
      → fits usdc_amount ≡ true
      → fits (usdc_amount *ℤ pos v.config.protocol_fee_bps) ≡ true
      → CanPay b.state usdc_amount
      → (d : Delivers c e v.config b.config.usdc node held token_amount usdc_amount w.ledger)
      → (w' : World c) × (settle e exit_id node token_amount usdc_amount w ≡ ok (tt, w'))
        × (w'.auction ≡ w.auction)
        × (w'.queue ≡ w.queue)
        × (w'.ledger ≡ d.after_node)
  unfolding settle paid
  settle_succeeds e exit_id node token_amount usdc_amount w v held b here authorized router stored
        capped tokens enough held_fits positive usdc_fits scaled able d =
      let fee = fee_of v.config usdc_amount in
      let net = usdc_amount -ℤ fee in
      let (nonneg, exact, above, part, left) = fee_of_bounds v.config usdc_amount capped positive in
      let invoked : IsAuthorized (enter e v.config.vault) e.current =
        ground (arith, ==_refl e.current) in
      let split = split_fee_succeeds v.config usdc_amount w capped positive usdc_fits scaled in
      let net_nonneg : pos 0 ≤ℤ net = omega (arith, left) in
      let net_le : net ≤ℤ usdc_amount = omega (int_laws, nonneg) in
      let first =
        vault_pay_out_succeeds e v.config here node held.asset held.seller e.current net w b
          d.after_seller router invoked left
          (part-CanPay b.state usdc_amount net able net_nonneg net_le) d.to_seller in
      let p = paid node held.asset held.seller net w b d.after_seller in
      let b2 : Backing node held.asset p = record {
        account = record {
          config = b.config;
          state = charged b.state net;
          configured = b.configured;
          known = lookup-insert_self node (charged b.state net) w.vault.nodes;
        };
        appetite = b.appetite;
        declared = b.declared;
      } in
      let (q, second, auction, queue, routers, ledger) =
        pay_fee_succeeds e v.config here node held.asset e.current fee p b2 d.after_treasury router
          invoked
          (λ due.
            subst (CanPay (charged b.state net)) (the_rest usdc_amount fee)
              (rest-CanPay b.state usdc_amount net able net_nonneg net_le))
          d.to_treasury in
      let third =
        ap (Chain.transfer c (enter e held.asset) held.asset e.current node token_amount) ledger
        ∙ d.to_node in
      let remaining = held.amount -ℤ token_amount in
      let after = record q { ledger = d.after_node } in
      let (a1, a2, a3) = left_over-frame exit_id held remaining after in
      let put = put_remaining_succeeds exit_id held remaining after in
      (
        record (left_over exit_id held remaining after) {
          events =
              Event.router (
                RouterEvent.settled held.asset exit_id held.seller node token_amount usdc_amount fee
                  net remaining)
              ∷ (left_over exit_id held remaining after).events;
        },
        ground (
          arith,
          v.configured,
          v.wired,
          stored,
          split,
          first,
          second,
          third,
          put,
          fits_between (pos 0) held.amount (held.amount -ℤ token_amount) fits_zero held_fits,
          -ℤ_parts held.amount token_amount,
        ),
        a1 ∙ auction,
        a2 ∙ queue,
        a3,
      )
