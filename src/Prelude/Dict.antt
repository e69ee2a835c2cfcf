-- ===== src/Prelude/Dict.antt =====
-- Storage maps. A map whose values the properties add up is an association list keyed by numbers
-- (`Dict`); the others are functions, updated at a key.
use stellar_exit_contracts.Prelude.Tests.{◌==◌, if◌then◌else◌, Bool-cases, ==→eq, ==_refl}
use Prim.Native.Nat.{ℕ, ◌+◌, ◌≤◌}
use mathlib.Core.Path.{◌≡◌, refl}
use mathlib.Core.Logic.{◌⊎◌, inl, inr}
use mathlib.Core.Bool.{◌&&◌}
use mathlib.Core.Option.{Option, none, some}
use mathlib.Core.List.{List, [], ◌∷◌}
use native.Mathlib.Omega.{arith}

abbrev pub Dict {ℓ} : Type ℓ → Type ℓ
Dict V = List (ℕ × V)

module _ {ℓ} {V : Type ℓ} where
  unfoldable pub lookup : ℕ → Dict V → Option V
  lookup k [] = none
  lookup k ((j, v) ∷ d) = if j == k then some v else lookup k d

  unfoldable pub insert : ℕ → V → Dict V → Dict V
  insert k v [] = (k, v) ∷ []
  insert k v ((j, u) ∷ d) = if j == k then (k, v) ∷ d else (j, u) ∷ insert k v d

  unfoldable pub remove : ℕ → Dict V → Dict V
  remove k [] = []
  remove k ((j, u) ∷ d) = if j == k then remove k d else (j, u) ∷ remove k d

  pub lookup-insert :
      (j k : ℕ) (v : V) (d : Dict V)
      → lookup j (insert k v d) ≡ (if k == j then some v else lookup j d)
  unfolding lookup insert
  lookup-insert j k v [] = refl
  lookup-insert j k v ((i, u) ∷ d) = ground (arith, lookup-insert j k v d)

  pub lookup-remove :
      (j k : ℕ) (d : Dict V) → lookup j (remove k d) ≡ (if k == j then none else lookup j d)
  unfolding lookup remove
  lookup-remove j k [] = ground arith
  lookup-remove j k ((i, u) ∷ d) = ground (arith, lookup-remove j k d)

  -- A value that is found after an insertion is the one inserted, or was there before.
  pub found_after_insert :
      (j k : ℕ) (v u : V) (d : Dict V)
      → lookup j (insert k v d) ≡ some u
      → ((k ≡ j) × (v ≡ u)) ⊎ (lookup j d ≡ some u)
  found_after_insert j k v u d h = elim (Bool-cases (k == j)) [
    | inl here ↦ inl (==→eq k j here, ground (arith, lookup-insert j k v d))
    | inr elsewhere ↦ inr (ground (arith, lookup-insert j k v d))
  ]

  pub lookup-insert_self : (k : ℕ) (v : V) (d : Dict V) → lookup k (insert k v d) ≡ some v
  lookup-insert_self k v d = ground (arith, lookup-insert k k v d, ==_refl k)

  -- The sum of a measure over the values, and how it moves.
  unfoldable pub total : (V → ℕ) → Dict V → ℕ
  total f [] = 0
  total f ((_, v) ∷ d) = f v + total f d

  abbrev pub measure : (V → ℕ) → Option V → ℕ
  measure f none = 0
  measure f (some v) = f v

  pub total-insert :
      (f : V → ℕ) (k : ℕ) (v : V) (d : Dict V)
      → total f (insert k v d) + measure f (lookup k d) ≡ total f d + f v
  unfolding total insert lookup
  total-insert f k v [] = omega arith
  total-insert f k v ((j, u) ∷ d) = ground (arith, total-insert f k v d)

  pub total-remove :
      (f : V → ℕ) (k : ℕ) (d : Dict V) → total f (remove k d) + measure f (lookup k d) ≤ total f d
  unfolding total remove lookup
  total-remove f k [] = omega arith
  total-remove f k ((j, u) ∷ d) = ground (arith, total-remove f k d)

-- A map as a function of its key.
module _ {ℓ} {A : Type ℓ} where
  abbrev pub update : ℕ → A → (ℕ → A) → ℕ → A
  update k v m j = if k == j then v else m j

  abbrev pub update₂ : ℕ → ℕ → A → (ℕ → ℕ → A) → ℕ → ℕ → A
  update₂ k l v m i j = if (k == i) && (l == j) then v else m i j
