-- ===== src/Adcs/SunSensors/Numbered.antt =====
-- Selections of sensors as lists of their numbers and voltages, for src/adcs/ssa.cpp.
use flight_software.Base.{
  ℕ, suc, ◌≤◌, ◌<◌, ◌≡◌, refl, ◌⊎◌, inl, inr, ◌==◌, if◌then◌else◌, List, [], ◌∷◌, ◌++◌, Option,
  none, some, arith,
}

-- The first of two that is there.
abbrev pub or_else : {A : Type 0} → Option A → Option A → Option A
or_else none b = b
or_else (some a) b = some a

-- The voltage of sensor `k` in a selection.
abbrev pub lookup : {Float : Type 0} → ℕ → List (ℕ × Float) → Option Float
lookup k [] = none
lookup k ((j, v) ∷ found) = if k == j then some v else lookup k found

-- Numbers from `j` on, each greater than the one before, and below `bound`.
abbrev pub IsAscending : {Float : Type 0} → ℕ → ℕ → List (ℕ × Float) → Type 0
IsAscending j bound [] = j ≤ bound
IsAscending j bound ((k, v) ∷ found) = (j ≤ k) × IsAscending (suc k) bound found

pub or_else-none : {A : Type 0} (a : Option A) → or_else a none ≡ a
or_else-none none = refl
or_else-none (some x) = refl

pub lookup-++ :
    {Float : Type 0} (k : ℕ) (xs ys : List (ℕ × Float))
    → lookup k (xs ++ ys) ≡ or_else (lookup k xs) (lookup k ys)
lookup-++ k [] ys = refl
lookup-++ k ((j, v) ∷ xs) ys = ground (arith, lookup-++ k xs ys)

ascending-le :
    {Float : Type 0} (j bound : ℕ) (found : List (ℕ × Float))
    → IsAscending j bound found
    → j ≤ bound
ascending-le j bound [] up = up
ascending-le j bound ((i, v) ∷ found) up =
    omega (arith, up.0, ascending-le (suc i) bound found up.1)

pub IsAscending-weaken :
    {Float : Type 0} (j k bound : ℕ) (found : List (ℕ × Float))
    → j ≤ k
    → IsAscending k bound found
    → IsAscending j bound found
IsAscending-weaken j k bound [] le up = omega (arith, le, up)
IsAscending-weaken j k bound ((i, v) ∷ found) le up = (omega (arith, le, up.0), up.1)

pub lookup-ascending :
    {Float : Type 0} (k j bound : ℕ) (found : List (ℕ × Float))
    → IsAscending j bound found
    → (k < j) ⊎ (bound ≤ k)
    → lookup k found ≡ none
lookup-ascending k j bound [] up out = refl
lookup-ascending k j bound ((i, v) ∷ found) up out = ground (
  arith,
  up.0,
  ascending-le (suc i) bound found up.1,
  out,
  lookup-ascending k (suc i) bound found up.1 (further out),
)
  where
    further : (k < j) ⊎ (bound ≤ k) → (k < suc i) ⊎ (bound ≤ k)
    further (inl before) = inl (omega (arith, before, up.0))
    further (inr after) = inr after

pub IsAscending-++ :
    {Float : Type 0} (j middle bound : ℕ) (xs ys : List (ℕ × Float))
    → IsAscending j middle xs
    → IsAscending middle bound ys
    → IsAscending j bound (xs ++ ys)
IsAscending-++ j middle bound [] ys up next = IsAscending-weaken j middle bound ys up next
IsAscending-++ j middle bound ((i, v) ∷ xs) ys up next =
    (up.0, IsAscending-++ (suc i) middle bound xs ys up.1 next)
