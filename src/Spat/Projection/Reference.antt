-- ===== src/Spat/Projection/Reference.antt =====
-- The loops of `update_spat_with_candidate_dpp` against a reference: where the signal groups are
-- distinct, each entry of the plan changes each movement by itself, in the order of the movements.
use carma_streets.Base.{
  ℕ, ◌≡◌, refl, sym, ◌∙◌, ap, List, [], ◌∷◌, ◌++◌, some, false, ◌==◌, elem, Distinct, All, length,
  Result, ok, err, Outcome, done, thrown, within, arith, inl, inr, Result-cases, ltb,
}
use mathlib.Core.List.{append_assoc}
use carma_streets.Spat.Movement.{MovementState}
use carma_streets.Spat.Intersection.{find_movement, replace_movement}
use carma_streets.Spat.Intersection.Store.{groups}
use carma_streets.Spat.Intersection.Single.{HasCurrentOnly}
use carma_streets.Spat.Projection.{process_movements}

abbrev pub KeepsGroup : (MovementState → Result MovementState) → Type 0
KeepsGroup process = (m n : MovementState) → process m ≡ ok n → n.signal_group ≡ m.signal_group

-- Every movement in turn, until one throws; those before it stay changed.
unfoldable pub process_each :
    (MovementState → Result MovementState) → List MovementState → Outcome (List MovementState)
process_each process [] = done []
process_each process (m ∷ ms) = elim (process m) [
  | ok n ↦ within (◌∷◌ n) (process_each process ms)
  | err x ↦ thrown x (m ∷ ms)
]

-- No movement of the second list has a group of the first.
abbrev Apart : List MovementState → List MovementState → Type 0
Apart pre ms = All (λ m. elem m.signal_group (groups pre) ≡ false) ms

elem-groups_snoc :
    (g : ℕ) (pre : List MovementState) (n : MovementState)
    → elem g (groups pre) ≡ false
    → (n.signal_group == g) ≡ false
    → elem g (groups (pre ++ n ∷ [])) ≡ false
elem-groups_snoc g [] n h k = ground arith
elem-groups_snoc g (x ∷ pre) n h k = ground (arith, elem-groups_snoc g pre n)

Apart-snoc :
    (pre : List MovementState) (n : MovementState) (ms : List MovementState)
    → elem n.signal_group (groups ms) ≡ false
    → Apart pre ms
    → Apart (pre ++ n ∷ []) ms
Apart-snoc pre n [] h k = tt
Apart-snoc pre n (m ∷ ms) h k = (
  elem-groups_snoc m.signal_group pre n k.0 (ground arith),
  Apart-snoc pre n ms (ground arith) k.1,
)

find_movement-skip :
    (g : ℕ) (pre : List MovementState) (m : MovementState) (ms : List MovementState)
    → elem g (groups pre) ≡ false
    → m.signal_group ≡ g
    → find_movement g (pre ++ m ∷ ms) ≡ some m
unfolding find_movement
find_movement-skip g [] m ms h e = ground arith
find_movement-skip g (x ∷ pre) m ms h e = ground (arith, find_movement-skip g pre m ms)

replace_movement-skip :
    (g : ℕ) (pre : List MovementState) (m n : MovementState) (ms : List MovementState)
    → elem g (groups pre) ≡ false
    → m.signal_group ≡ g
    → replace_movement g n (pre ++ m ∷ ms) ≡ pre ++ n ∷ ms
unfolding replace_movement
replace_movement-skip g [] m n ms h e = ground arith
replace_movement-skip g (x ∷ pre) m n ms h e = ground (arith, replace_movement-skip g pre m n ms)

within-within {ℓ} :
    {S T U : Type ℓ} (f : T → U) (g : S → T) (h : S → U) (o : Outcome S)
    → ((s : S) → f (g s) ≡ h s)
    → within f (within g o) ≡ within h o
within-within f g h (done s) e = ap done (e s)
within-within f g h (thrown x s) e = ap (thrown x) (e s)

module _ (process : MovementState → Result MovementState) (keeps : KeepsGroup process) where
  process_movements-append :
      (pre copies ms : List MovementState)
      → groups copies ≡ groups ms
      → Distinct (groups ms)
      → All HasCurrentOnly copies
      → Apart pre ms
      → process_movements process copies (pre ++ ms) ≡ within (◌++◌ pre) (process_each process ms)
  unfolding process_movements process_each
  process_movements-append pre [] [] e u f a = refl
  process_movements-append pre [] (m ∷ ms) e u f a = cc
  process_movements-append pre (c ∷ copies) [] e u f a = cc
  process_movements-append pre (c ∷ copies) (m ∷ ms) e u f a =
      let here : m.signal_group ≡ c.signal_group = cc e in
      let found : find_movement c.signal_group (pre ++ m ∷ ms) ≡ some m =
        find_movement-skip c.signal_group pre m ms (rw (← here) a.0) here in
      let one : ltb 1 (length c.state_time_speed) ≡ false = rw f.0 in
      elim (Result-cases (process m)) [
        | inl (n, k) ↦
            rw (one, found, process_movements, k)
              (rw (k, process_each)
                (ap (process_movements process copies) (
                    replace_movement-skip c.signal_group pre m n ms (rw (← here) a.0) here
                    ∙ sym (append_assoc pre (n ∷ []) ms))
                  ∙ process_movements-append (pre ++ n ∷ []) copies ms (ground arith) u.1 f.1
                      (Apart-snoc pre n ms (rw (keeps m n k) u.0) a.1)
                  ∙ sym (
                      within-within (◌++◌ pre) (◌∷◌ n) (◌++◌ (pre ++ n ∷ []))
                        (process_each process ms) (λ s. sym (append_assoc pre (n ∷ []) s)))))
        | inr (x, k) ↦ rw (one, found, process_movements, k) (rw (k, process_each))
      ]

  -- For a step that keeps the signal group, over copies of one event each that have the same signal
  -- groups as the movements, in their order and no group twice, the inner loop is `process_each`,
  -- exceptions of the step included.
  pub process_movements-process_each :
      (copies ms : List MovementState)
      → groups copies ≡ groups ms
      → Distinct (groups ms)
      → All HasCurrentOnly copies
      → process_movements process copies ms ≡ process_each process ms
  process_movements-process_each copies ms e u f =
      process_movements-append [] copies ms e u f (all_apart ms) ∙ same (process_each process ms)
    where
      all_apart : (xs : List MovementState) → Apart [] xs
      all_apart [] = tt
      all_apart (x ∷ xs) = (refl, all_apart xs)

      same : (o : Outcome (List MovementState)) → within (◌++◌ []) o ≡ o
      same (done s) = refl
      same (thrown x s) = refl
