-- ===== src/SignalOpt/Arbitrator/Best.antt =====
-- streets_desired_phase_plan_arbitrator.cpp: that the selected candidate has the greatest measure.
use mathlib.Core.List.Permᴰ
use mathlib.Core.List.{Permᴰ, append_assoc}
use carma_streets.Base.{
  ℕ, suc, ◌≡◌, ◌⊎◌, refl, List, [], ◌∷◌, ◌++◌, true, false, length, length-append, All, All-Perm,
  Option, some, ok, err, Bool-cases, Result-cases, inl, inr, arith,
}
use carma_streets.Double.{Double}
use carma_streets.Plan.{DesiredPhasePlan}
use carma_streets.Vehicles.VehicleList.{VehicleMap}
use carma_streets.Spat.Movement.{MovementPhaseState, MovementState}
use carma_streets.SignalOpt.Arbitrator.{
  best_from, plan_at, identify_ddp_by_delay_measures, Arbitration, measure_candidate,
  delay_measures, select_optimal_dpp,
}

plan_at-length :
    {G : Type 0} (single : Double G) (pre : List DesiredPhasePlan) (p : DesiredPhasePlan)
    (ps : List DesiredPhasePlan)
    → plan_at single (length pre) (pre ++ p ∷ ps) ≡ some p
unfolding plan_at
plan_at-length single [] p ps = refl
plan_at-length single (q ∷ pre) p ps = plan_at-length single pre p ps

module _ {G : Type 0} (single : Double G) where
  open single use {lt}

  -- As IEEE 754 has it, for NaN as well.
  abbrev pub IsOrder : Type 0
  IsOrder =
      ((x : G) → lt x x ≡ false) × ((x y z : G) → lt x y ≡ true → lt y z ≡ true → lt x z ≡ true)

  -- The value, or one that is greater.
  abbrev pub AtLeast : G → G → Type 0
  AtLeast x y = (x ≡ y) ⊎ (lt y x ≡ true)

  -- What is not above the lesser value is not above the greater.
  not_above : IsOrder → (x y z : G) → AtLeast x y → lt y z ≡ false → lt x z ≡ false
  not_above order x y z (inl eq) h = rw eq h
  not_above order x y z (inr greater) h = elim (Bool-cases (lt x z)) [
    | inr below ↦ below
    | inl above ↦ let through = order.1 y x z greater above in cc
  ]

  -- The best entry has what all entries have, and none has a greater measure.
  best_from-greatest :
      IsOrder
      → (P : ℕ × G → Type 0) (index : ℕ) (measure : G) (rest : List (ℕ × G)) → P (index, measure)
      → All P rest
      → (f : G) × P (best_from single index measure rest, f)
        × AtLeast f measure
        × All (λ e. lt f e.1 ≡ false) rest
  unfolding best_from
  best_from-greatest order P index measure [] h all = (measure, h, inl refl, tt)
  best_from-greatest order P index measure ((i, f) ∷ rest) h all =
      elim (Bool-cases (lt measure f)) [
        | inl better ↦
            let found = best_from-greatest order P i f rest all.0 all.1 in
            (
              found.0,
              rw better found.1,
              elim found.2 [
                | inl eq ↦ inr (rw eq better)
                | inr greater ↦ inr (order.1 measure f found.0 better greater)
              ],
              (not_above order found.0 f f found.2 (order.0 f), found.3),
            )
        | inr worse ↦
            let found = best_from-greatest order P index measure rest h all.1 in
            (
              found.0,
              rw worse found.1,
              found.2,
              (not_above order found.0 measure f found.2 worse, found.3),
            )
      ]

  identify-greatest :
      IsOrder
      → (P : ℕ × G → Type 0) (plans : List DesiredPhasePlan) (e : ℕ × G) (es : List (ℕ × G))
      → All P (e ∷ es)
      → (index : ℕ) × (f : G) × (identify_ddp_by_delay_measures single plans (e ∷ es)
          ≡ plan_at single index plans)
        × P (index, f)
        × All (λ e. lt f e.1 ≡ false) (e ∷ es)
  unfolding identify_ddp_by_delay_measures
  identify-greatest order P plans (i, f) es all =
      let found = best_from-greatest order P i f ((i, f) ∷ es) all.0 all in
      (best_from single i f ((i, f) ∷ es), found.0, refl, found.1, found.3)

module _ {F G : Type 0} (d : Double F) (single : Double G) (system_now now : ℕ)
    (garbage : MovementPhaseState) (a : Arbitration F) (states : List MovementState)
    (vehicles : VehicleMap F) where
  open single use {lt}

  -- The entry's measure is that of the plan which stands at its index.
  abbrev IsMeasured : List DesiredPhasePlan → ℕ × G → Type 0
  IsMeasured plans (i, f) =
      (plan : DesiredPhasePlan) × (plan_at single i plans ≡ some plan)
      × (measure_candidate d single system_now now garbage a states vehicles plan ≡ ok f)

  delay_measures-IsMeasured :
      (pre ps : List DesiredPhasePlan) (ms : List (ℕ × G))
      → delay_measures d single system_now now garbage a states vehicles (length pre) ps ≡ ok ms
      → All (IsMeasured (pre ++ ps)) ms
        × ((P : G → Type 0)
            → All (λ e. P e.1) ms
            → All
                (λ q.
                  (f : G) × (measure_candidate d single system_now now garbage a states vehicles q
                    ≡ ok f)
                  × P f)
                ps)
  unfolding delay_measures
  delay_measures-IsMeasured pre [] ms h = let eq : [] ≡ ms = cc h in rw (← eq) (tt, λ P k. tt)
  delay_measures-IsMeasured pre (p ∷ ps) ms h =
      elim (Result-cases (measure_candidate d single system_now now garbage a states vehicles p)) [
        | inr (x, bad) ↦ let no_case : err x ≡ ok ms = rw (bad, delay_measures) at h in cc no_case
        | inl (f, here) ↦
            elim (Result-cases (
              delay_measures d single system_now now garbage a states vehicles (suc (length pre))
                ps)) [
                  | inr (x, bad) ↦
                      let no_case : err x ≡ ok ms = rw (here, bad, delay_measures) at h in
                      cc no_case
                  | inl (later, rest) ↦
                      let made : ok ((length pre, f) ∷ later) ≡ ok ms =
                        rw (here, rest, delay_measures) at h in
                      let eq : (length pre, f) ∷ later ≡ ms = cc made in
                      let one : length (pre ++ p ∷ []) ≡ suc (length pre) =
                        omega (arith, length-append pre (p ∷ [])) in
                      let both = delay_measures-IsMeasured (pre ++ p ∷ []) ps later (rw one rest) in
                      let moved : All (IsMeasured (pre ++ p ∷ ps)) later =
                        rw (append_assoc pre (p ∷ []) ps) at both.0 in
                      rw (← eq) (
                        ((p, plan_at-length single pre p ps, here), moved),
                        λ P k. ((f, here, k.0), both.1 P k.1),
                      )
                ]
      ]

  abbrev pub Greatest : DesiredPhasePlan → List DesiredPhasePlan → Option DesiredPhasePlan → Type 0
  Greatest p ps out =
      (index : ℕ) × (plan : DesiredPhasePlan) × (f : G) × (out ≡ some plan)
      × (plan_at single index (p ∷ ps) ≡ some plan)
      × (measure_candidate d single system_now now garbage a states vehicles plan ≡ ok f)
      × All
          (λ q.
            (g : G) × (measure_candidate d single system_now now garbage a states vehicles q ≡ ok g)
            × (lt f g ≡ false))
          (p ∷ ps)

  best_of :
      (p : DesiredPhasePlan) (ps : List DesiredPhasePlan) (ms : List (ℕ × G))
      (out : Option DesiredPhasePlan) (met : List (ℕ × G))
      → IsOrder single
      → Permᴰ met ms
      → All (IsMeasured (p ∷ ps)) ms
      → ((P : G → Type 0)
          → All (λ e. P e.1) ms
          → All
              (λ q.
                (f : G) × (measure_candidate d single system_now now garbage a states vehicles q
                  ≡ ok f)
                × P f)
              (p ∷ ps))
      → identify_ddp_by_delay_measures single (p ∷ ps) met ≡ out
      → Greatest p ps out
  best_of p ps ms out [] order back measured each eq =
      absurd (each (λ f. ⊥) (All-Perm (λ e. ⊥) back tt)).0.2
  best_of p ps ms out (e ∷ es) order back measured each eq =
      let found =
        identify-greatest single order (IsMeasured (p ∷ ps)) (p ∷ ps) e es
          (All-Perm (IsMeasured (p ∷ ps)) (Permᴰ.symm back) measured) in
      let (plan, stands, has) = found.3 in
      (
        found.0,
        plan,
        found.1,
        (rw (← eq, found.2) stands),
        stands,
        has,
        each (λ f. lt found.1 f ≡ false) (All-Perm (λ m. lt found.1 m.1 ≡ false) back found.4),
      )

  -- Whatever order the arbitrator meets the measures in, when it returns for a list of candidates that
  -- is not empty, with a SPaT message and vehicles, and the comparison of measures is irreflexive and
  -- transitive: it returns one of the candidates, every candidate has a measure, and none has a greater
  -- one.
  pub select_optimal_dpp-Greatest :
      (shuffle : List (ℕ × G) → List (ℕ × G)) (p : DesiredPhasePlan) (ps : List DesiredPhasePlan)
      (out : Option DesiredPhasePlan)
      → IsOrder single
      → ((ms : List (ℕ × G)) → Permᴰ (shuffle ms) ms)
      → a.spat ≡ some states
      → a.vehicles ≡ some vehicles
      → select_optimal_dpp d single system_now now garbage a shuffle (p ∷ ps) ≡ ok out
      → Greatest p ps out
  unfolding select_optimal_dpp
  select_optimal_dpp-Greatest shuffle p ps out order shuffled has_spat has_vehicles h =
      elim (Result-cases
        (delay_measures d single system_now now garbage a states vehicles 0 (p ∷ ps))) [
          | inr (x, bad) ↦
              let no_case : err x ≡ ok out =
                rw (has_spat, has_vehicles, bad, select_optimal_dpp) at h in
              cc no_case
          | inl (ms, known) ↦
              let each = delay_measures-IsMeasured [] (p ∷ ps) ms known in
              let made : ok (identify_ddp_by_delay_measures single (p ∷ ps) (shuffle ms)) ≡ ok out =
                rw (has_spat, has_vehicles, known, select_optimal_dpp) at h in
              let eq : identify_ddp_by_delay_measures single (p ∷ ps) (shuffle ms) ≡ out =
                cc made in
              best_of p ps ms out (shuffle ms) order (shuffled ms) each.0 each.1 eq
        ]
