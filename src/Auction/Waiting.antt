-- ===== src/Auction/Waiting.antt =====
-- The auction's exits against the queue's lines (contracts/exit_auction/src/lib.rs and
-- contracts/fifo_queue/src/lib.rs): who stands in a line, and who does not.
pub mod Calls
pub mod Orderly
use stellar_exit_contracts.Auction.Exits.{same_exit}
use stellar_exit_contracts.Auction.Storage.{is_queued, dequeue_if_queued}
use stellar_exit_contracts.Auction.Frame.{queue_dequeue-Left}
use stellar_exit_contracts.Queue.Calls.{line, IsOrderly}
use stellar_exit_contracts.Queue.Line.{
  erase, contains-erase, contains-position, position-erase_self,
}
use stellar_exit_contracts.State.Auction.{Config, Exit}
use stellar_exit_contracts.Host.Chain.{Address, Env, Chain, World}
use stellar_exit_contracts.Host.Call.{ok}
use stellar_exit_contracts.Prelude.{
  ℕ, ◌≡◌, refl, sym, subst, ◌∙◌, inl, inr, Bool, true, false, not, ◌&&◌, some, arith, ◌==◌,
  Bool-cases, ==→eq, ==_refl,
}
use stellar_exit_contracts.Prelude.Dict.{lookup, insert, lookup-insert}
use stellar_exit_contracts.Prelude.Lists.{contains}

both : (b : Bool) (m n : ℕ) → (b && (m == n)) ≡ true → (b ≡ true) × (m ≡ n)
both b m n h = (ground arith, ground arith)

module _ {c : Chain} where
  -- Whoever stands in the line of an asset is a queued exit of that asset, and every queued exit
  -- stands in the line of its asset.
  pub record IsLined (w : World c) : Type 0 where
    pub stands :
        (asset : Address) (i : ℕ)
        → contains i (line w asset) ≡ true
        → (x : Exit) × (lookup i w.auction.exits ≡ some x)
          × ((is_queued x.status && (x.asset == asset)) ≡ true)
    pub waits :
        (i : ℕ) (x : Exit)
        → lookup i w.auction.exits ≡ some x
        → is_queued x.status ≡ true
        → contains i (line w x.asset) ≡ true

  -- Where a stored exit stands.
  pub own_place :
      (w : World c) (i : ℕ) (x : Exit)
      → IsLined w
      → lookup i w.auction.exits ≡ some x
      → (asset : Address) → contains i (line w asset) ≡ (is_queued x.status && (x.asset == asset))
  own_place w i x l stored asset = elim (Bool-cases (contains i (line w asset))) [
    | inl there ↦
        let (y, found, place) = l.stands asset i there in
        there
        ∙ sym (
            subst (λ (v : Exit). (is_queued v.status && (v.asset == asset)) ≡ true)
              (same_exit i i y x w.auction.exits refl found stored) place)
    | inr away ↦ elim (Bool-cases (is_queued x.status && (x.asset == asset))) [
      | inr other ↦ away ∙ sym other
      | inl here ↦
          let (queued, key) = both (is_queued x.status) x.asset asset here in
          subst (λ a. contains i (line w a) ≡ true) key (l.waits i x stored queued) ∙ sym here
    ]
  ]

  -- One exit is written, and it alone may change its place.
  pub step-IsLined :
      (w w' : World c) (i : ℕ) (new : Exit)
      → IsLined w
      → w'.auction.exits ≡ insert i new w.auction.exits
      → ((asset : Address) (j : ℕ)
          → (i == j) ≡ false
          → contains j (line w' asset) ≡ contains j (line w asset))
      → ((asset : Address)
          → contains i (line w' asset) ≡ (is_queued new.status && (new.asset == asset)))
      → IsLined w'
  step-IsLined w w' i new l exits others own = record {
    stands = λ asset j there. elim (Bool-cases (i == j)) [
      | inl here ↦
          let key = ==→eq i j here in
          (
            new,
            rw exits (lookup-insert j i new w.auction.exits ∙ rw here refl),
            sym (own asset) ∙ subst (λ k. contains k (line w' asset) ≡ true) (sym key) there,
          )
      | inr apart ↦
          let (x, found, place) = l.stands asset j (sym (others asset j apart) ∙ there) in
          (x, rw exits (lookup-insert j i new w.auction.exits ∙ rw apart found), place)
    ];
    waits = λ j x found queued. elim (Bool-cases (i == j)) [
      | inl here ↦
          let same =
            same_exit j j new x (insert i new w.auction.exits) refl
              (lookup-insert j i new w.auction.exits ∙ rw here refl) (rw (sym exits) found) in
          subst (λ k. contains k (line w' x.asset) ≡ true) (==→eq i j here)
            (own x.asset
              ∙ subst (λ (v : Exit). (is_queued v.status && (v.asset == x.asset)) ≡ true) (sym same)
                  (ground (arith, queued, ==_refl x.asset)))
      | inr apart ↦
          others x.asset j apart
          ∙ l.waits j x
              (sym (lookup-insert j i new w.auction.exits ∙ rw apart refl) ∙ rw (sym exits) found)
              queued
    ];
  }

  -- An exit leaves the line in which it stands, if it does, and nobody else does.
  pub dequeued_places :
      (queued : Bool) (e : Env) (config : Config) (exit : Exit) (w w' : World c)
      → IsOrderly w
      → dequeue_if_queued queued e config exit w ≡ ok (tt, w')
      → (asset : Address)
      → ((j : ℕ) → (exit.id == j) ≡ false → contains j (line w' asset) ≡ contains j (line w asset))
        × (contains exit.id (line w' asset)
            ≡ (contains exit.id (line w asset) && not (queued && (exit.asset == asset))))
  dequeued_places false e config exit w w' o h asset = (λ j apart. ground arith, ground arith)
  dequeued_places true e config exit w w' o h asset =
      let f = queue_dequeue-Left e config exit.id w w' exit.asset h in
      (
        λ j apart.
            rw (f.lines) (ground (arith, apart, contains-erase exit.id j (line w exit.asset))),
        rw (f.lines) (
            ground (
              arith,
              contains-position exit.id (erase exit.id (line w exit.asset)),
              position-erase_self exit.id (line w exit.asset) (o.unrepeated exit.asset),
            )),
      )
