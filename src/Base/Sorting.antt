-- ===== src/Base/Sorting.antt =====
-- std::list::sort, which is stable. (std::sort need not be: where the source calls it, the order of equal
-- elements is this one's.)
use mathlib.Core.Bool.{Bool, true, false}
use mathlib.Core.List.{List, [], ◌∷◌}
use mathlib.Core.List.Permᴰ
use mathlib.Core.List.{Permᴰ}
use mathlib.Core.Logic.{◌⊎◌, inl, inr}
use mathlib.Core.Path.{◌≡◌, refl}
use Prim.Native.Nat.{ℕ, ◌≤◌, ◌<◌}
use native.Mathlib.Omega.{arith}
use carma_streets.Base.Lists.{All, All-map, All-Perm}
use carma_streets.Base.Tests.{if◌then◌else◌, Bool-cases}

module _ {ℓ} {A : Type ℓ} (less : A → A → Bool) where
  -- Before the first element that the new one is not behind.
  abbrev pub insert_sorted : A → List A → List A
  insert_sorted x [] = x ∷ []
  insert_sorted x (y ∷ ys) = if less y x then y ∷ insert_sorted x ys else x ∷ y ∷ ys

  abbrev pub sort : List A → List A
  sort [] = []
  sort (x ∷ xs) = insert_sorted x (sort xs)

module _ {A : Type 0} (less : A → A → Bool) where
  insert_sorted-perm : (x : A) (ys : List A) → Permᴰ (insert_sorted less x ys) (x ∷ ys)
  insert_sorted-perm x [] = Permᴰ.cons refl Permᴰ.nil
  insert_sorted-perm x (y ∷ ys) = elim (Bool-cases (less y x)) [
    | inl behind ↦
        rw behind (Permᴰ.trans (Permᴰ.cons refl (insert_sorted-perm x ys)) (Permᴰ.swap refl refl))
    | inr ahead ↦ rw ahead (Permᴰ.refl (x ∷ y ∷ ys))
  ]

  pub sort-perm : (xs : List A) → Permᴰ (sort less xs) xs
  sort-perm [] = Permᴰ.nil
  sort-perm (x ∷ xs) =
      Permᴰ.trans (insert_sorted-perm x (sort less xs)) (Permᴰ.cons refl (sort-perm xs))

  module _ (key : A → ℕ)
      (by_key : (x y : A)
        → ((less x y ≡ true) × (key x < key y)) ⊎ ((less x y ≡ false) × (key y ≤ key x))) where
    -- No element has a smaller key than the first.
    abbrev FirstIsLeast : List A → Type 0
    FirstIsLeast [] = Unit
    FirstIsLeast (x ∷ xs) = All (λ y. key x ≤ key y) (x ∷ xs)

    insert_sorted-FirstIsLeast :
        (x : A) (ys : List A) → FirstIsLeast ys → FirstIsLeast (insert_sorted less x ys)
    insert_sorted-FirstIsLeast x [] h = (omega arith, tt)
    insert_sorted-FirstIsLeast x (y ∷ ys) h = elim (by_key y x) [
      | inl (behind, smaller) ↦
          let all : All (λ z. key y ≤ key z) (insert_sorted less x ys) =
            All-Perm (λ z. key y ≤ key z) (Permᴰ.symm (insert_sorted-perm x ys))
              (omega arith, h.1) in
          rw behind (omega arith, all)
      | inr (ahead, least) ↦ rw ahead (
        omega arith,
        (least, All-map (λ z. key y ≤ key z) (λ z. key x ≤ key z) (λ z k. omega arith) ys h.1),
      )
    ]

    sort-FirstIsLeast : (xs : List A) → FirstIsLeast (sort less xs)
    sort-FirstIsLeast [] = tt
    sort-FirstIsLeast (x ∷ xs) = insert_sorted-FirstIsLeast x (sort less xs) (sort-FirstIsLeast xs)

    -- The first element of the sorted list has what all have, and the least key of all.
    pub sort-first :
        (P : A → Type 0) (xs : List A) (best : A) (others : List A)
        → sort less xs ≡ best ∷ others
        → All P xs
        → P best × All (λ x. key best ≤ key x) xs
    sort-first P xs best others eq all =
        let sorted : All P (best ∷ others) =
          rw eq at (All-Perm P (Permᴰ.symm (sort-perm xs)) all) in
        let least : All (λ x. key best ≤ key x) (best ∷ others) = rw eq at (sort-FirstIsLeast xs) in
        let perm : Permᴰ (best ∷ others) xs = rw eq at (sort-perm xs) in
        (sorted.0, All-Perm (λ x. key best ≤ key x) perm least)
