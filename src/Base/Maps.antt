-- ===== src/Base/Maps.antt =====
-- Maps with numbers as keys, as association lists.
use Prim.Native.Nat.{ℕ}
use mathlib.Core.Bool.{Bool, true, false}
use mathlib.Core.Option.{Option, none, some}
use mathlib.Core.List.{List, [], ◌∷◌}
use carma_streets.Base.Tests.{◌==◌, if◌then◌else◌}

-- std::unordered_map<int, int>: `insert` keeps an entry that is there. The list is in no special order.
abbrev pub IntMap : Type 0
IntMap = List (ℕ × ℕ)

module _ {ℓ} {A : Type ℓ} where
  abbrev pub lookup : ℕ → List (ℕ × A) → Option A
  lookup k [] = none
  lookup k ((j, v) ∷ m) = if j == k then some v else lookup k m

  abbrev pub insert : ℕ → A → List (ℕ × A) → List (ℕ × A)
  insert k v [] = (k, v) ∷ []
  insert k v ((j, w) ∷ m) = if j == k then (j, w) ∷ m else (j, w) ∷ insert k v m

abbrev pub has_key {ℓ} : {A : Type ℓ} → ℕ → List (ℕ × A) → Bool
has_key k [] = false
has_key k ((j, v) ∷ m) = if j == k then true else has_key k m
