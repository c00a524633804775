-- ===== src/Scheduler/AllStop/Permutations.antt =====
-- std::next_permutation of the ready vehicles, by an order that need not be total.
use carma_streets.Base.{
  ℕ, List, [], ◌∷◌, ◌++◌, Bool, true, false, if◌then◌else◌, Option, none, some,
}
pub mod Ascent

module _ {A : Type 0} (less : A → A → Bool) where
  abbrev pub reverse_onto : List A → List A → List A
  reverse_onto [] out = out
  reverse_onto (x ∷ xs) out = reverse_onto xs (x ∷ out)

  -- The last element that is behind `x` changes places with it.
  unfoldable pub exchange_last : A → List A → Option (A × List A)
  exchange_last x [] = none
  exchange_last x (y ∷ ys) = elim (exchange_last x ys) [
    | some (z, zs) ↦ some (z, y ∷ zs)
    | none ↦ if less x y then some (y, x ∷ ys) else none
  ]

  -- Where no later pair ascends: the pair of `x` and the next element does, or the whole is the last.
  unfoldable pub ascend_here : A → List A → Option (List A)
  ascend_here x [] = none
  ascend_here x (y ∷ ys) =
      if less x y
      then (elim (exchange_last x (y ∷ ys)) [
        | none ↦ none
        | some (z, zs) ↦ some (z ∷ reverse_onto zs [])
      ])
      else none

  -- None after the last permutation.
  unfoldable pub next_permutation : List A → Option (List A)
  next_permutation [] = none
  next_permutation (x ∷ xs) = elim (next_permutation xs) [
    | some ys ↦ some (x ∷ ys)
    | none ↦ ascend_here x xs
  ]
