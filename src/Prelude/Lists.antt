-- ===== src/Prelude/Lists.antt =====
-- Lists by position, over the native numbers.
use stellar_exit_contracts.Prelude.Tests.{◌==◌, if◌then◌else◌}
use Prim.Native.Nat.{ℕ, suc, ◌+◌}
use mathlib.Core.Path.{◌≡◌}
use mathlib.Core.Bool.{Bool, false, ◌||◌}
use mathlib.Core.Option.{Option, none, some}
use mathlib.Core.List.{List, [], ◌∷◌, ◌++◌}
use native.Mathlib.Omega.{arith}

module _ {ℓ} {A : Type ℓ} where
  abbrev pub length : List A → ℕ
  length [] = 0
  length (x ∷ xs) = suc (length xs)

  -- `first`
  abbrev pub first : List A → Option A
  first [] = none
  first (x ∷ xs) = some x

  pub length-push : (xs : List A) (x : A) → length (xs ++ x ∷ []) ≡ length xs + 1
  length-push [] x = omega arith
  length-push (y ∷ xs) x = omega (arith, length-push xs x)

-- `iter().any(|x| x == a)`
unfoldable pub contains : ℕ → List ℕ → Bool
contains a [] = false
contains a (x ∷ xs) = x == a || contains a xs

abbrev shifted : Option ℕ → Option ℕ
shifted none = none
shifted (some i) = some (suc i)

-- `iter().position(|x| x == a)`
unfoldable pub position : ℕ → List ℕ → Option ℕ
position a [] = none
position a (x ∷ xs) = if x == a then some 0 else shifted (position a xs)

-- The list without the entry at `index`, counted from `i`: `enumerate` with a test on the index.
unfoldable pub without : ℕ → ℕ → List ℕ → List ℕ
without index i [] = []
without index i (x ∷ xs) =
    if i == index then without index (suc i) xs else x ∷ without index (suc i) xs
