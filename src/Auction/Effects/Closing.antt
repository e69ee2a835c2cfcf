-- ===== src/Auction/Effects/Closing.antt =====
-- What `close` of contracts/exit_auction/src/lib.rs has found and done when it succeeds: it fills the
-- exit or puts it in the line.
use stellar_exit_contracts.Auction.Effects.{at_head_lem}
use stellar_exit_contracts.Auction.Effects.Filling.{stored_exit, Filled, fill-Filled}
use stellar_exit_contracts.Auction.Frame.{queue_enqueue-Entered}
use stellar_exit_contracts.Auction.Storage.{at_head, lets_through, is_taking_bids, queue_enqueue}
use stellar_exit_contracts.Auction.Bids.{close}
use stellar_exit_contracts.Queue.Calls.{line}
use stellar_exit_contracts.State.Auction.{Config, Exit, Status}
use stellar_exit_contracts.Host.Chain.{Env, Chain, World}
use stellar_exit_contracts.Host.Call.{ok, Result-cases}
use stellar_exit_contracts.Prelude.{
  ℕ, ◌<◌, ◌≡◌, refl, sym, ◌∙◌, ◌⊎◌, inl, inr, Bool, true, false, ◌&&◌, some, is_some, arith,
  Option-cases, Bool-cases, ap,
}
use stellar_exit_contracts.Prelude.Int.{leb_ℤ}
use stellar_exit_contracts.Prelude.Dict.{lookup}
use stellar_exit_contracts.Prelude.Lists.{first}

-- The standing bid is there and meets the reserve.
abbrev pub is_acceptable : Exit → Bool
is_acceptable exit = is_some exit.best_node && leb_ℤ exit.min_accept_usdc exit.best_usdc

module _ {c : Chain} where
  -- Nobody stands before the exit.
  abbrev pub is_in_turn : Exit → World c → Bool
  is_in_turn exit w = lets_through (first (line w exit.asset)) exit.id

  pub record Lined (e : Env) (exit : Exit) (w w' : World c) : Type 0 where
    pub config : Config
    pub place : ℕ
    pub entered : World c
    pub configured : w.auction.config ≡ some config
    pub to_queue : queue_enqueue e config exit.asset exit.id w ≡ ok (place, entered)
    pub result : w' ≡ stored_exit (record exit { status = Status.queued }) entered

  pub Lined-auction :
      {e : Env} {exit : Exit} {w w' : World c}
      → Lined e exit w w'
      → w'.auction ≡ (stored_exit (record exit { status = Status.queued }) w).auction
  Lined-auction {e} {exit} {w} {w'} l =
      rw
        (
          l.result,
          (queue_enqueue-Entered e l.config exit.id w l.entered exit.asset l.place
              l.to_queue).result,
        )
        refl

  pub record Closed (e : Env) (exit_id : ℕ) (w w' : World c) : Type 0 where
    pub exit : Exit
    pub stored : lookup exit_id w.auction.exits ≡ some exit
    pub taking : is_taking_bids exit.status ≡ true
    pub over : exit.closes_at < e.timestamp
    pub outcome :
        (((is_acceptable exit && is_in_turn exit w) ≡ true) × Filled e exit w w')
        ⊎ (((is_acceptable exit && is_in_turn exit w) ≡ false) × Lined e exit w w')

  line_up :
      (e : Env) (exit_id : ℕ) (exit : Exit) (w w' : World c)
      → close e exit_id w ≡ ok (tt, w')
      → lookup exit_id w.auction.exits ≡ some exit
      → (is_acceptable exit ≡ false) ⊎ (at_head e exit w ≡ ok (false, w))
      → Lined e exit w w'
  unfolding close
  line_up e exit_id exit w w' h stored reason = elim (Option-cases w.auction.config) [
    | inl missing ↦ absurd (ground arith)
    | inr (config, configured) ↦ elim (Result-cases (queue_enqueue e config exit.asset exit.id w)) [
      | inl (x, refused) ↦ absurd (ground arith)
      | inr (place, entered, to_queue) ↦ record {
        config = config;
        place = place;
        entered = entered;
        configured = configured;
        to_queue = to_queue;
        result = ground arith;
      }
    ]
  ]

  outcome :
      (e : Env) (exit_id : ℕ) (exit : Exit) (w w' : World c)
      → close e exit_id w ≡ ok (tt, w')
      → lookup exit_id w.auction.exits ≡ some exit
      → (((is_acceptable exit && is_in_turn exit w) ≡ true) × Filled e exit w w')
        ⊎ (((is_acceptable exit && is_in_turn exit w) ≡ false) × Lined e exit w w')
  unfolding close
  outcome e exit_id exit w w' h stored = elim (Bool-cases (is_acceptable exit)) [
    | inr low ↦ inr (rw low refl, line_up e exit_id exit w w' h stored (inl low))
    | inl good ↦ elim (Result-cases (at_head e exit w)) [
      | inl (x, refused) ↦ absurd (ground arith)
      | inr (true, v, asked) ↦
          let (turn, same) = at_head_lem e exit w v true asked in
          inl (
            rw (good, sym turn) refl,
            fill-Filled e exit w w' (ground (arith, asked ∙ ap (λ u. ok (true, u)) same)),
          )
      | inr (false, v, asked) ↦
          let (turn, same) = at_head_lem e exit w v false asked in
          inr (
            rw (good, sym turn) refl,
            line_up e exit_id exit w w' h stored (inr (asked ∙ ap (λ u. ok (false, u)) same)),
          )
    ]
  ]

  pub close-Closed :
      (e : Env) (exit_id : ℕ) (w w' : World c)
      → close e exit_id w ≡ ok (tt, w')
      → Closed e exit_id w w'
  unfolding close
  close-Closed e exit_id w w' h = elim (Option-cases (lookup exit_id w.auction.exits)) [
    | inl unknown ↦ absurd (ground arith)
    | inr (exit, stored) ↦ record {
      exit = exit;
      stored = stored;
      taking = ground arith;
      over = ground arith;
      outcome = outcome e exit_id exit w w' h stored;
    }
  ]
