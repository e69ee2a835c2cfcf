-- ===== src/Queue/Line.antt =====
-- The laws of a line of exits: entering at the back, and leaving from anywhere.
use stellar_exit_contracts.Prelude.{
  ℕ, zero, suc, ◌+◌, ◌-◌, ◌<◌, ◌≡◌, ◌≢◌, refl, Bool, true, false, ◌&&◌, not, Option, some, none,
  List, [], ◌∷◌, ◌++◌, arith, ltb, ◌==◌, if◌then◌else◌, ◌||◌, is_some,
}
use stellar_exit_contracts.Prelude.Lists.{length, contains, position, without}

-- The first occurrence of an exit taken out: what leaving the line means.
unfoldable pub erase : ℕ → List ℕ → List ℕ
erase a [] = []
erase a (x ∷ xs) = if x == a then xs else x ∷ erase a xs

-- Nobody stands in the line twice.
unfoldable pub distinct : List ℕ → Bool
unfolding contains
distinct [] = true
distinct (x ∷ xs) = not (contains x xs) && distinct xs

without_past : (index i : ℕ) (xs : List ℕ) → index < i → without index i xs ≡ xs
unfolding without
without_past index i [] h = refl
without_past index i (x ∷ xs) h = ground (arith, without_past index (suc i) xs)

-- The loop of `dequeue` takes out just the exit whose index was found.
pub without-eq-erase :
    (a i k : ℕ) (xs : List ℕ) → position a xs ≡ some k → without (i + k) i xs ≡ erase a xs
unfolding without erase position
without-eq-erase a i k [] h = refl
without-eq-erase a i zero (x ∷ xs) h = ground (arith, without_past (i + 0) (suc i) xs)
without-eq-erase a i (suc k) (x ∷ xs) h = ground (arith, without-eq-erase a (suc i) k xs)

pub position-push :
    (a b : ℕ) (xs : List ℕ)
    → position a (xs ++ b ∷ []) ≡ (elim (position a xs) [
      | some i ↦ some i
      | none ↦ if b == a then some (length xs) else none
    ])
unfolding position
position-push a b [] = ground arith
position-push a b (x ∷ xs) = ground (arith, position-push a b xs)

-- Where `b` stands once the exit at `left` has gone: everyone behind it moves up by one.
unfoldable pub moved_up : Option ℕ → Option ℕ → Option ℕ
moved_up (some left) (some i) = if ltb left i then some (i - 1) else some i
moved_up (some left) none = none
moved_up none place = place

pub position-erase :
    (a b : ℕ) (xs : List ℕ)
    → b ≢ a
    → position b (erase a xs) ≡ moved_up (position a xs) (position b xs)
unfolding position erase moved_up
position-erase a b [] h = refl
position-erase a b (x ∷ xs) h = ground (arith, position-erase a b xs h)

pub length-erase :
    (a k : ℕ) (xs : List ℕ) → position a xs ≡ some k → length (erase a xs) + 1 ≡ length xs
unfolding position erase
length-erase a k [] h = ground arith
length-erase a zero (x ∷ xs) h = ground (arith, length-erase a zero xs)
length-erase a (suc k) (x ∷ xs) h = ground (arith, length-erase a k xs)

pub contains-position : (a : ℕ) (xs : List ℕ) → contains a xs ≡ is_some (position a xs)
unfolding position contains
contains-position a [] = refl
contains-position a (x ∷ xs) = ground (arith, contains-position a xs)

pub contains-push : (a b : ℕ) (xs : List ℕ) → contains a (xs ++ b ∷ []) ≡ contains a xs || b == a
unfolding contains
contains-push a b [] = ground arith
contains-push a b (x ∷ xs) = ground (arith, contains-push a b xs)

pub distinct-push :
    (a : ℕ) (xs : List ℕ)
    → distinct xs ≡ true
    → contains a xs ≡ false
    → distinct (xs ++ a ∷ []) ≡ true
unfolding distinct
distinct-push a [] d new = ground arith
distinct-push a (x ∷ xs) d new = ground (arith, distinct-push a xs, contains-push x a xs)

-- Whoever else stands in the line goes on standing there.
pub contains-erase :
    (a b : ℕ) (xs : List ℕ) → (a == b) ≡ false → contains b (erase a xs) ≡ contains b xs
unfolding contains erase
contains-erase a b [] h = refl
contains-erase a b (x ∷ xs) h = ground (arith, contains-erase a b xs h)

contains-erase_other :
    (a b : ℕ) (xs : List ℕ) → contains b xs ≡ false → contains b (erase a xs) ≡ false
unfolding contains erase
contains-erase_other a b [] h = refl
contains-erase_other a b (x ∷ xs) h = ground (arith, contains-erase_other a b xs)

pub distinct-erase : (a : ℕ) (xs : List ℕ) → distinct xs ≡ true → distinct (erase a xs) ≡ true
unfolding distinct erase
distinct-erase a [] d = refl
distinct-erase a (x ∷ xs) d = ground (arith, distinct-erase a xs, contains-erase_other a x xs)

-- In a line without repetitions, the exit that left stands nowhere.
pub position-erase_self :
    (a : ℕ) (xs : List ℕ) → distinct xs ≡ true → position a (erase a xs) ≡ none
unfolding distinct erase position
position-erase_self a [] d = refl
position-erase_self a (x ∷ xs) d = ground (arith, position-erase_self a xs, contains-position a xs)

-- One place holds one exit.
pub position_injective :
    (a b k : ℕ) (xs : List ℕ) → position a xs ≡ some k → position b xs ≡ some k → a ≡ b
unfolding position
position_injective a b k [] h h' = ground arith
position_injective a b zero (x ∷ xs) h h' = ground arith
position_injective a b (suc k) (x ∷ xs) h h' = ground (arith, position_injective a b k xs)

-- Whoever is behind stays behind when a third one leaves.
pub moved_up_order :
    (left i j : ℕ) {i' j' : ℕ}
    → i < j
    → left ≢ i
    → moved_up (some left) (some i) ≡ some i'
    → moved_up (some left) (some j) ≡ some j'
    → i' < j'
unfolding moved_up
moved_up_order left i j h other e e' = ground arith

pub moved_up-some :
    (left i : ℕ) → moved_up (some left) (some i) ≡ some (if ltb left i then i - 1 else i)
unfolding moved_up
moved_up-some left i = ground arith
