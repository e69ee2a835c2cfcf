-- ===== src/Queue/Order.antt =====
-- No function of contracts/fifo_queue/src/lib.rs reorders a line: whoever stands ahead of another
-- stays ahead, whatever is called, until one of the two leaves.
use stellar_exit_contracts.Queue.Operations.{
  Operation, perform, initialize_lines, set_auction_lines, enqueue_answer, perform-IsOrderly,
}
use stellar_exit_contracts.Queue
use stellar_exit_contracts.Queue.Line.{
  contains-position, moved_up, moved_up-some, moved_up_order, position_injective,
}
use stellar_exit_contracts.Queue.Calls.{
  enqueue-Entered, dequeue-Left, line, IsOrderly, enqueue_positions, dequeue_positions,
}
use stellar_exit_contracts.Host.Chain.{Address, Env, Chain, World}
use stellar_exit_contracts.Host.Call.{ok}
use stellar_exit_contracts.Prelude.{
  ℕ, ◌<◌, ◌≡◌, ◌≢◌, inl, inr, some, arith, subst, sym, ap, Bool-cases, ◌==◌, ==→eq, ◌∙◌, ap₂, ltb,
  ◌-◌, if◌then◌else◌, false,
}
use stellar_exit_contracts.Prelude.Lists.{position, contains}

-- The call is the one by which the exit leaves the line of the asset.
abbrev pub IsLeaving : Address → ℕ → Operation → Type 0
IsLeaving asset a (Operation.dequeue asset' a') = (asset' ≡ asset) × (a' ≡ a)
IsLeaving asset a _ = ⊥

-- Neither of the two leaves.
abbrev pub BothStay : Address → ℕ → ℕ → Operation → Type 0
BothStay asset a b op = (¬ IsLeaving asset a op) × (¬ IsLeaving asset b op)

module _ {c : Chain} (asset : Address) (a b : ℕ) where
  -- Both stand in line, `a` nearer to its head.
  pub record IsAhead (w : World c) : Type 0 where
    pub place : ℕ
    pub behind : ℕ
    pub first : position a (line w asset) ≡ some place
    pub second : position b (line w asset) ≡ some behind
    pub order : place < behind

  same_line-IsAhead : {w w' : World c} → line w' asset ≡ line w asset → IsAhead w → IsAhead w'
  same_line-IsAhead same p = record {
    place = p.place;
    behind = p.behind;
    first = rw same (p.first);
    second = rw same (p.second);
    order = p.order;
  }

  enqueue-IsAhead :
      (e : Env) (asset' : Address) (x place : ℕ) (w w' : World c)
      → Queue.enqueue e asset' x w ≡ ok (place, w')
      → IsAhead w
      → IsAhead w'
  enqueue-IsAhead e asset' x place w w' h p =
      let f = enqueue-Entered e asset' x place w w' h in
      let q = enqueue_positions e asset' x place w w' h in
      elim (Bool-cases (asset' == asset)) [
        | inr other ↦ same_line-IsAhead (q.3 asset (ground arith)) p
        | inl same ↦
            let same_asset = ==→eq asset' asset same in
            let new : contains x (line w asset) ≡ false =
              subst (λ t. contains x (line w t) ≡ false) same_asset f.new in
            let kept : (d : ℕ) → d ≢ x → position d (line w' asset) ≡ position d (line w asset) =
              subst (λ t. (d : ℕ) → d ≢ x → position d (line w' t) ≡ position d (line w t))
                same_asset q.2 in
            record {
              place = p.place;
              behind = p.behind;
              first = kept a (stands a p.place x w p.first new) ∙ p.first;
              second = kept b (stands b p.behind x w p.second new) ∙ p.second;
              order = p.order;
            }
      ]
    where
      stands :
          (d k x : ℕ) (w : World c)
          → position d (line w asset) ≡ some k
          → contains x (line w asset) ≡ false
          → d ≢ x
      stands d k x w found new same =
          ground
            (arith, contains-position x (line w asset), ap (λ t. position t (line w asset)) same)

  -- Where `d` stands after another exit has left the line of the same asset.
  moved_place :
      (e : Env) (x left d k : ℕ) (w w' : World c)
      → IsOrderly w
      → Queue.dequeue e asset x w ≡ ok (tt, w')
      → position x (line w asset) ≡ some left
      → d ≢ x
      → position d (line w asset) ≡ some k
      → position d (line w' asset) ≡ some (if ltb left k then k - 1 else k)
  moved_place e x left d k w w' o h found other at =
      (dequeue_positions e asset x w w' o h).1 d other
      ∙ ap₂ moved_up found at
      ∙ moved_up-some left k

  dequeue_here-IsAhead :
      (e : Env) (x : ℕ) (w w' : World c)
      → IsOrderly w
      → Queue.dequeue e asset x w ≡ ok (tt, w')
      → x ≢ a
      → x ≢ b
      → IsAhead w
      → IsAhead w'
  dequeue_here-IsAhead e x w w' o h not_a not_b p =
      let f = dequeue-Left e asset x w w' h in
      let elsewhere : f.index ≢ p.place = λ same. not_a (
        position_injective x a p.place (line w asset)
          (subst (λ k. position x (line w asset) ≡ some k) same f.found) p.first) in
      record {
        place = _;
        behind = _;
        first = moved_place e x f.index a p.place w w' o h f.found (λ t. not_a (sym t)) p.first;
        second = moved_place e x f.index b p.behind w w' o h f.found (λ t. not_b (sym t)) p.second;
        order =
            moved_up_order f.index p.place p.behind p.order elsewhere
              (moved_up-some f.index p.place) (moved_up-some f.index p.behind);
      }

  dequeue-IsAhead :
      (e : Env) (asset' : Address) (x : ℕ) (w w' : World c)
      → IsOrderly w
      → Queue.dequeue e asset' x w ≡ ok (tt, w')
      → ¬ ((asset' ≡ asset) × (x ≡ a))
      → ¬ ((asset' ≡ asset) × (x ≡ b))
      → IsAhead w
      → IsAhead w'
  dequeue-IsAhead e asset' x w w' o h not_a not_b p = elim (Bool-cases (asset' == asset)) [
    | inr other ↦
        same_line-IsAhead ((dequeue_positions e asset' x w w' o h).2 asset (ground arith)) p
    | inl same ↦
        let here = ==→eq asset' asset same in
        dequeue_here-IsAhead e x w w' o (subst (λ t. Queue.dequeue e t x w ≡ ok (tt, w')) here h)
          (λ t. not_a (here, t)) (λ t. not_b (here, t)) p
  ]

  -- Any calls of the queue, by anybody and at any time, in which both stay.
  pub data Stays (start : World c) : World c → Type 0 where
    here : Stays start start
    next :
        {w w' : World c} (op : Operation) (e : Env)
        → Stays start w
        → BothStay asset a b op
        → perform op e w ≡ ok (tt, w')
        → Stays start w'

module _ {c : Chain} (e : Env) (w w' : World c) where
  perform-IsAhead :
      (asset : Address) (a b : ℕ) (op : Operation)
      → IsOrderly w
      → BothStay asset a b op
      → perform op e w ≡ ok (tt, w')
      → IsAhead asset a b w
      → IsAhead asset a b w'
  unfolding perform
  perform-IsAhead asset a b (Operation.initialize admin) o stay h p =
      same_line-IsAhead asset a b (rw (initialize_lines e w w' admin h)) p
  perform-IsAhead asset a b (Operation.set_auction auction) o stay h p =
      same_line-IsAhead asset a b (rw (set_auction_lines e w w' auction h)) p
  perform-IsAhead asset a b (Operation.enqueue asset' x) o stay h p =
      let (place, done) = enqueue_answer e w w' asset' x h in
      enqueue-IsAhead asset a b e asset' x place w w' done p
  perform-IsAhead asset a b (Operation.dequeue asset' x) o stay h p =
      dequeue-IsAhead asset a b e asset' x w w' o h stay.0 stay.1 p

module _ {c : Chain} (asset : Address) (a b : ℕ) where
  Stays-IsOrderly : {start w : World c} → IsOrderly start → Stays asset a b start w → IsOrderly w
  Stays-IsOrderly o here = o
  Stays-IsOrderly o (next {w} {w'} op e r stay h) =
      perform-IsOrderly e w w' op (Stays-IsOrderly o r) h

  -- Nobody overtakes: from an orderly start, whatever calls of the queue are made, an exit that
  -- stands ahead of another in the line of an asset stands ahead of it as long as neither of the
  -- two leaves that line.
  pub Stays-IsAhead :
      {start w : World c}
      → IsOrderly start
      → IsAhead asset a b start
      → Stays asset a b start w
      → IsAhead asset a b w
  Stays-IsAhead o p here = p
  Stays-IsAhead o p (next {w} {w'} op e r stay h) =
      perform-IsAhead e w w' asset a b op (Stays-IsOrderly o r) stay h (Stays-IsAhead o p r)
