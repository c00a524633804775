-- ===== src/Tsc/Monitor/Served.antt =====
-- The green that is fixed next, and what the update does without a plan.
use carma_streets.Base.{
  ℕ, ◌≤◌, ◌≡◌, refl, List, [], ◌∷◌, false, ltb, if◌then◌else◌, length, All, ok, err, arith, add64,
  inl, inr, Bool-cases, Result-cases, too_many_next_phases, no_next_phases,
}
use carma_streets.Spat.Movement.{MovementPhaseState}
use carma_streets.Plan.{GreenTiming, is_empty}
use carma_streets.Tsc.State.{StateMap, TscState}
use carma_streets.Tsc.Monitor.{state_of, green_end, next_groups, fixed_green}

module _ (now : ℕ) (states : StateMap) where
  green_end-le : (start latest : ℕ) (sgs : List ℕ) → latest ≤ green_end now states start latest sgs
  unfolding green_end
  green_end-le start latest [] = omega arith
  green_end-le start latest (sg ∷ sgs) =
      elim (Bool-cases (ltb latest (add64 start (state_of states sg).min_green))) [
        | inl more ↦
            let h = green_end-le start (add64 start (state_of states sg).min_green) sgs in
            rw more (ground (arith, h))
        | inr less ↦ rw less (green_end-le start latest sgs)
      ]

  green_end-covers :
      (start latest bound : ℕ) (sgs : List ℕ)
      → green_end now states start latest sgs ≤ bound
      → All (λ sg. add64 start (state_of states sg).min_green ≤ bound) sgs
  unfolding green_end
  green_end-covers start latest bound [] h = tt
  green_end-covers start latest bound (sg ∷ sgs) h =
      let local = add64 start (state_of states sg).min_green in
      let next = if ltb latest local then local else latest in
      let k = green_end-le start next sgs in
      (ground (arith, h, k), green_end-covers start next bound sgs h)

length-positive : (xs : List ℕ) → is_empty xs ≡ false → 1 ≤ length xs
length-positive [] h = cc
length-positive (x ∷ xs) h = omega arith

module _ (now : ℕ) (garbage : MovementPhaseState) (tsc : TscState) (next_phases : ℕ) where
  -- When the fixed green is found it has one or two signal groups, starts where it was asked to, and
  -- for each of its groups ends no earlier than the start plus the minimum green of the group, a sum
  -- in uint64_t.
  pub fixed_green-lasts :
      (start : ℕ) (t : GreenTiming)
      → fixed_green now garbage tsc next_phases start ≡ ok t
      → (1 ≤ length t.signal_groups)
        × (length t.signal_groups ≤ 2)
        × (t.start_time ≡ start)
        × All (λ sg. add64 start (state_of tsc.states sg).min_green ≤ t.end_time) t.signal_groups
  unfolding fixed_green
  fixed_green-lasts start t h = elim (Result-cases (next_groups tsc next_phases 8 0)) [
    | inr (x, k) ↦ let bad : err x ≡ ok t = rw k at h in cc bad
    | inl (groups, k) ↦ elim (Bool-cases (ltb 2 (length groups))) [
      | inl many ↦ let bad : err too_many_next_phases ≡ ok t = rw (k, many) at h in cc bad
      | inr few ↦ elim (Bool-cases (is_empty groups)) [
        | inl none_next ↦
            let bad : err no_next_phases ≡ ok t = rw (k, few, none_next) at h in cc bad
        | inr some_next ↦
            let made : ok (record {
              start_time = start;
              end_time = green_end now tsc.states start 0 groups;
              signal_groups = groups;
            })
                ≡ ok t =
              rw (k, few, some_next) at h in
            let fixed : record {
              start_time = start;
              end_time = green_end now tsc.states start 0 groups;
              signal_groups = groups;
            }
                ≡ t =
              cc made in
            rw (← fixed) (
              length-positive groups some_next,
              ground (arith, few),
              refl,
              green_end-covers now tsc.states start 0 (green_end now tsc.states start 0 groups)
                  groups (omega arith),
            )
      ]
    ]
  ]
