-- ===== src/Scheduler/AllStop/Ready/Loop.antt =====
-- all_stop_vehicle_scheduler.cpp: the loop over the permutations of the ready vehicles.
use mathlib.Core.List.Permᴰ
use mathlib.Core.List.{Permᴰ, append_assoc, append-nil}
use carma_streets.Base.{
  ℕ, zero, suc, ◌+◌, ◌-◌, ◌^◌, ◌≤◌, ◌<◌, ◌≡◌, ◌≢◌, refl, sym, ◌∙◌, inl, inr, ltb, List, [], ◌∷◌,
  ◌++◌, length, All, All-map, All-append, All-Perm, true, if◌then◌else◌, Option, none, some,
  Option-cases, ok, err, Result-cases, arith,
}
use carma_streets.Double.{Double}
use carma_streets.Vehicles.{Vehicle}
use carma_streets.Scheduler.AllStop.{AllStopSchedule, AllStopScheduler, next_position}
use carma_streets.Scheduler.AllStop.Departing.{departure_position_comparator}
use carma_streets.Scheduler.AllStop.Permutations.{next_permutation}
use carma_streets.Scheduler.AllStop.Permutations.Ascent.{
  length-perm, digits, digits-lt, next_permutation-digits, next_permutation-perm,
}
use carma_streets.Scheduler.AllStop.Ready.{
  largest_position, consider_departure_position_permutation, with_option, consider_each,
}

module _ {F : Type 0} where
  pub key : Vehicle F → ℕ
  key v = if ltb v.departure_position 2 then 1 - v.departure_position else v.departure_position

  key-up : (v w : Vehicle F) → departure_position_comparator v w ≡ true → key v < key w
  unfolding departure_position_comparator key
  key-up v w h = ground arith

  key_small : (v : Vehicle F) (m : ℕ) → 1 ≤ m → v.departure_position ≤ m → key v < suc m
  unfolding key
  key_small v m h k = ground arith

  largest_position_pos : (vs : List (Vehicle F)) → 1 ≤ largest_position vs
  unfolding largest_position
  largest_position_pos [] = omega arith
  largest_position_pos (v ∷ vs) = let rest = largest_position_pos vs in omega arith

  pub key-bound : (vs : List (Vehicle F)) → All (λ v. key v < suc (largest_position vs)) vs
  unfolding largest_position
  key-bound [] = tt
  key-bound (v ∷ vs) =
      let rest = largest_position_pos vs in
      (
        key_small v (largest_position (v ∷ vs)) (omega arith) (omega arith),
        All-map (λ w. key w < suc (largest_position vs))
            (λ w. key w < suc (largest_position (v ∷ vs))) (λ w small. omega arith) vs
            (key-bound vs),
      )

module _ {F : Type 0} (d : Double F) (scheduler : AllStopScheduler F) (timestamp : ℕ) where
  with_option-All :
      (P : List AllStopSchedule → Type 0) (ws vs : List (Vehicle F))
      (schedules : List AllStopSchedule) (o : Option (List AllStopSchedule))
      (options : List (List AllStopSchedule))
      → ((us : List (Vehicle F)) (p : List AllStopSchedule)
          → Permᴰ us vs
          → consider_departure_position_permutation d scheduler timestamp us schedules
              (next_position schedules)
            ≡ ok (some p)
          → P p)
      → Permᴰ ws vs
      → All P options
      → consider_departure_position_permutation d scheduler timestamp ws schedules
          (next_position schedules)
        ≡ ok o
      → All P (with_option o options)
  with_option-All P ws vs schedules none options each perm all h = all
  with_option-All P ws vs schedules (some p) options each perm all h =
      All-append P options (p ∷ []) all (each ws p perm h, tt)

  -- What every valid option has, all the options of the loop have.
  pub consider_each-All :
      (P : List AllStopSchedule → Type 0) (fuel : ℕ) (vs ws : List (Vehicle F))
      (schedules : List AllStopSchedule) (options out : List (List AllStopSchedule))
      → ((us : List (Vehicle F)) (o : List AllStopSchedule)
          → Permᴰ us vs
          → consider_departure_position_permutation d scheduler timestamp us schedules
              (next_position schedules)
            ≡ ok (some o)
          → P o)
      → Permᴰ ws vs
      → All P options
      → consider_each d scheduler timestamp fuel ws schedules options ≡ ok (some out)
      → All P out
  unfolding consider_each
  consider_each-All P zero vs ws schedules options out each perm all h = cc h
  consider_each-All P (suc fuel) vs ws schedules options out each perm all h =
      elim (Result-cases (
        consider_departure_position_permutation d scheduler timestamp ws schedules
          (next_position schedules))) [
            | inr (x, failed) ↦
                let bad : err x ≡ ok (some out) = rw (failed, consider_each) at h in cc bad
            | inl (o, known) ↦
                let kept : All P (with_option o options) =
                  with_option-All P ws vs schedules o options each perm all known in
                elim (Option-cases (next_permutation departure_position_comparator ws)) [
                  | inl last_one ↦
                      let made : ok (some (with_option o options)) ≡ ok (some out) =
                        rw (known, last_one, consider_each) at h in
                      let eq : with_option o options ≡ out = cc made in rw (← eq) kept
                  | inr (us, later) ↦
                      consider_each-All P fuel vs us schedules (with_option o options) out each
                        (Permᴰ.trans
                          (next_permutation-perm departure_position_comparator ws us later) perm)
                        kept (rw (known, later, consider_each) at h)
                ]
          ]

  with_option-grows :
      (o : Option (List AllStopSchedule)) (options : List (List AllStopSchedule))
      → (more : List (List AllStopSchedule)) × (with_option o options ≡ options ++ more)
  with_option-grows none options = ([], sym (append-nil options))
  with_option-grows (some p) options = (p ∷ [], refl)

  consider_each-grows :
      (fuel : ℕ) (ws : List (Vehicle F)) (schedules : List AllStopSchedule)
      (options out : List (List AllStopSchedule))
      → consider_each d scheduler timestamp fuel ws schedules options ≡ ok (some out)
      → (o : Option (List AllStopSchedule)) × (consider_departure_position_permutation d scheduler
            timestamp ws schedules
            (next_position schedules)
          ≡ ok o)
        × (more : List (List AllStopSchedule)) × (out ≡ with_option o options ++ more)
  unfolding consider_each
  consider_each-grows zero ws schedules options out h = cc h
  consider_each-grows (suc fuel) ws schedules options out h =
      elim (Result-cases (
        consider_departure_position_permutation d scheduler timestamp ws schedules
          (next_position schedules))) [
            | inr (x, failed) ↦
                let bad : err x ≡ ok (some out) = rw (failed, consider_each) at h in cc bad
            | inl (o, known) ↦
                elim (Option-cases (next_permutation departure_position_comparator ws)) [
                  | inl last_one ↦
                      let made : ok (some (with_option o options)) ≡ ok (some out) =
                        rw (known, last_one, consider_each) at h in
                      let eq : with_option o options ≡ out = cc made in
                      (o, known, [], rw (append-nil (with_option o options)) (sym eq))
                  | inr (us, later) ↦
                      let rest =
                        consider_each-grows fuel us schedules (with_option o options) out
                          (rw (known, later, consider_each) at h) in
                      let next = with_option-grows rest.0 (with_option o options) in
                      (
                        o,
                        known,
                        next.0 ++ rest.2,
                        rest.3
                            ∙ (rw (next.1) refl)
                            ∙ append_assoc (with_option o options) next.0 rest.2,
                      )
                ]
          ]

  -- The option of the first permutation, where it is valid, is one of the options.
  pub consider_each-first :
      (fuel : ℕ) (ws : List (Vehicle F)) (schedules p : List AllStopSchedule)
      (out : List (List AllStopSchedule))
      → consider_departure_position_permutation d scheduler timestamp ws schedules
          (next_position schedules)
        ≡ ok (some p)
      → consider_each d scheduler timestamp fuel ws schedules [] ≡ ok (some out)
      → (more : List (List AllStopSchedule)) × (out ≡ p ∷ more)
  consider_each-first fuel ws schedules p out known h =
      let grown = consider_each-grows fuel ws schedules [] out h in
      let same : ok grown.0 ≡ ok (some p) = sym grown.1 ∙ known in
      let eq : grown.0 ≡ some p = cc same in (grown.2, grown.3 ∙ (rw eq refl))

  -- One round of fuel for each step up is enough.
  pub consider_each_total :
      (b fuel : ℕ) (vs : List (Vehicle F)) (schedules : List AllStopSchedule)
      (options : List (List AllStopSchedule))
      → All (λ v. key v < b) vs
      → b ^ length vs ≤ fuel + digits departure_position_comparator key b vs
      → consider_each d scheduler timestamp fuel vs schedules options ≢ ok none
  unfolding consider_each
  consider_each_total b zero vs schedules options small enough h =
      let below = digits-lt departure_position_comparator key b vs small in omega arith
  consider_each_total b (suc fuel) vs schedules options small enough h =
      elim (Result-cases (
        consider_departure_position_permutation d scheduler timestamp vs schedules
          (next_position schedules))) [
            | inr (x, failed) ↦
                let bad : err x ≡ ok none = rw (failed, consider_each) at h in cc bad
            | inl (o, known) ↦
                elim (Option-cases (next_permutation departure_position_comparator vs)) [
                  | inl last_one ↦
                      let bad : ok (some (with_option o options)) ≡ ok none =
                        rw (known, last_one, consider_each) at h in
                      cc bad
                  | inr (us, later) ↦
                      let perm = next_permutation-perm departure_position_comparator vs us later in
                      let up =
                        next_permutation-digits departure_position_comparator key key-up b vs us
                          small later in
                      let same : length us ≡ length vs = length-perm perm in
                      consider_each_total b fuel us schedules (with_option o options)
                        (All-Perm (λ v. key v < b) (Permᴰ.symm perm) small) (rw same (omega arith))
                        (rw (known, later, consider_each) at h)
                ]
          ]
