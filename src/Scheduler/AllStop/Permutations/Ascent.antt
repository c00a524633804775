-- ===== src/Scheduler/AllStop/Permutations/Ascent.antt =====
-- That the permutations go up in the order of their keys, read as the digits of a number.
use mathlib.Core.List.Permᴰ
use mathlib.Core.List.{Permᴰ, append-nil}
use native.Mathlib.Nat.{pow-suc, pow-zero, mul-le-mul_right}
use carma_streets.Base.{
  ℕ, suc, ◌+◌, ◌*◌, ◌^◌, ◌≤◌, ◌<◌, ◌≡◌, refl, sym, ap, ◌∙◌, List, [], ◌∷◌, ◌++◌, length, All, Bool,
  true, none, some, Option-cases, Bool-cases, inl, inr, arith,
}
use carma_streets.Scheduler.AllStop.Permutations.{
  reverse_onto, exchange_last, ascend_here, next_permutation,
}

-- A greater digit outweighs what is behind it.
digit-lt : (a c p x y : ℕ) → a < c → x < p → a * p + x < c * p + y
digit-lt a c p x y h k = let scaled : suc a * p ≤ c * p = mul-le-mul_right p h in omega arith

module _ {A : Type 0} where
  pub length-perm : {xs ys : List A} → Permᴰ xs ys → length xs ≡ length ys
  length-perm Permᴰ.nil = refl
  length-perm (Permᴰ.cons eq p) = ap suc (length-perm p)
  length-perm (Permᴰ.swap eq₁ eq₂) = refl
  length-perm (Permᴰ.trans p q) = length-perm p ∙ length-perm q

module _ {A : Type 0} (less : A → A → Bool) where
  exchange_last-perm :
      (x : A) (ys : List A) (z : A) (zs : List A)
      → exchange_last less x ys ≡ some (z, zs)
      → (less x z ≡ true) × Permᴰ (z ∷ zs) (x ∷ ys)
  unfolding exchange_last
  exchange_last-perm x [] z zs h = cc
  exchange_last-perm x (y ∷ ys) z zs h = elim (Option-cases (exchange_last less x ys)) [
    | inr ((w, ws), found) ↦
        let made : some (w, y ∷ ws) ≡ some (z, zs) = rw (found, exchange_last) at h in
        let rest = exchange_last-perm x ys w ws found in
        let eq₁ : w ≡ z = cc made in
        let eq₂ : y ∷ ws ≡ zs = cc made in
        rw (← eq₁, ← eq₂)
          (
            rest.0,
            Permᴰ.trans (Permᴰ.swap refl refl)
                (Permᴰ.trans (Permᴰ.cons refl rest.1) (Permᴰ.swap refl refl)),
          )
    | inl nothing ↦ elim (Bool-cases (less x y)) [
      | inr no_ascent ↦
          let bad : none ≡ some (z, zs) = rw (nothing, no_ascent, exchange_last) at h in cc bad
      | inl ascent ↦
          let made : some (y, x ∷ ys) ≡ some (z, zs) = rw (nothing, ascent, exchange_last) at h in
          let eq₁ : y ≡ z = cc made in
          let eq₂ : x ∷ ys ≡ zs = cc made in rw (← eq₁, ← eq₂) (ascent, Permᴰ.swap refl refl)
    ]
  ]

  reverse_onto-perm : (xs out : List A) → Permᴰ (reverse_onto less xs out) (xs ++ out)
  reverse_onto-perm [] out = Permᴰ.refl out
  reverse_onto-perm (x ∷ xs) out =
      Permᴰ.trans (reverse_onto-perm xs (x ∷ out)) (Permᴰ.middle x xs out)

  ascend_here-perm :
      (x : A) (ys out : List A)
      → ascend_here less x ys ≡ some out
      → (z : A) × (zs : List A) × (out ≡ z ∷ zs) × (less x z ≡ true) × Permᴰ (z ∷ zs) (x ∷ ys)
  unfolding ascend_here
  ascend_here-perm x [] out h = cc
  ascend_here-perm x (y ∷ ys) out h = elim (Bool-cases (less x y)) [
    | inr flat ↦ let bad : none ≡ some out = rw (flat, ascend_here) at h in cc bad
    | inl ascent ↦ elim (Option-cases (exchange_last less x (y ∷ ys))) [
      | inl nothing ↦ let bad : none ≡ some out = rw (ascent, nothing, ascend_here) at h in cc bad
      | inr ((z, zs), found) ↦
          let made : some (z ∷ reverse_onto less zs []) ≡ some out =
            rw (ascent, found, ascend_here) at h in
          let eq : z ∷ reverse_onto less zs [] ≡ out = cc made in
          let one = exchange_last-perm x (y ∷ ys) z zs found in
          let back : Permᴰ (reverse_onto less zs []) zs =
            rw (append-nil zs) at (reverse_onto-perm zs []) in
          (z, reverse_onto less zs [], sym eq, one.0, Permᴰ.trans (Permᴰ.cons refl back) one.1)
    ]
  ]

  -- A permutation of the list.
  pub next_permutation-perm : (xs ys : List A) → next_permutation less xs ≡ some ys → Permᴰ ys xs
  unfolding next_permutation
  next_permutation-perm [] ys h = cc
  next_permutation-perm (x ∷ xs) ys h = elim (Option-cases (next_permutation less xs)) [
    | inr (zs, found) ↦
        let made : some (x ∷ zs) ≡ some ys = rw (found, next_permutation) at h in
        let eq : x ∷ zs ≡ ys = cc made in
        rw (← eq) (Permᴰ.cons refl (next_permutation-perm xs zs found))
    | inl done_here ↦
        let here = ascend_here-perm x xs ys (rw (done_here, next_permutation) at h) in
        rw (here.2) here.4
  ]

  module _ (key : A → ℕ) where
    -- The keys as the digits of a number.
    abbrev pub digits : ℕ → List A → ℕ
    digits b [] = 0
    digits b (x ∷ xs) = key x * b ^ length xs + digits b xs

    pub digits-lt : (b : ℕ) (xs : List A) → All (λ x. key x < b) xs → digits b xs < b ^ length xs
    digits-lt b [] h = rw (pow-zero b) (omega arith)
    digits-lt b (x ∷ xs) h =
        let rest = digits-lt b xs h.1 in
        let first : key x < b = h.0 in
        rw (pow-suc b (length xs))
          (let top = digit-lt (key x) b (b ^ length xs) (digits b xs) 0 first rest in omega arith)

    pub next_permutation-digits :
        ((x y : A) → less x y ≡ true → key x < key y)
        → (b : ℕ) (xs ys : List A) → All (λ x. key x < b) xs
        → next_permutation less xs ≡ some ys
        → digits b xs < digits b ys
    unfolding next_permutation
    next_permutation-digits up b [] ys all h = cc
    next_permutation-digits up b (x ∷ xs) ys all h =
        elim (Option-cases (next_permutation less xs)) [
          | inr (zs, found) ↦
              let made : some (x ∷ zs) ≡ some ys = rw (found, next_permutation) at h in
              let eq : x ∷ zs ≡ ys = cc made in
              let rest = next_permutation-digits up b xs zs all.1 found in
              let same : length zs ≡ length xs = length-perm (next_permutation-perm xs zs found) in
              rw (← eq, same) (omega arith)
          | inl done_here ↦
              let here = ascend_here-perm x xs ys (rw (done_here, next_permutation) at h) in
              let rises = up x here.0 here.3 in
              let below = digits-lt b xs all.1 in
              let same : length here.1 ≡ length xs = omega (arith, length-perm here.4) in
              let up_here =
                digit-lt (key x) (key here.0) (b ^ length xs) (digits b xs) (digits b here.1) rises
                  below in
              let at_ys : digits b ys ≡ key here.0 * b ^ length here.1 + digits b here.1 =
                ap (λ l. digits b l) here.2 in
              rw (at_ys, same) up_here
        ]
