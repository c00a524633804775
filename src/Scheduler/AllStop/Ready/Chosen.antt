-- ===== src/Scheduler/AllStop/Ready/Chosen.antt =====
-- all_stop_vehicle_scheduler.cpp, schedule_rdvs: what the chosen schedule is.
use mathlib.Core.List.Permᴰ
use mathlib.Core.List.{Permᴰ}
use carma_streets.Base.{
  ℕ, ◌+◌, ◌≤◌, ◌<◌, ◌≡◌, sym, ◌∙◌, ◌⊎◌, inl, inr, List, [], ◌∷◌, ◌++◌, length, All, List-cases,
  true, false, sort, sort-perm, sort-first, none, some, ok, Result-cases, Outcome, done, thrown,
  Fault, no_valid_option, arith,
}
use carma_streets.Double.{Double}
use carma_streets.Vehicles.{Vehicle}
use carma_streets.Scheduler.AllStop.{AllStopSchedule, AllStopScheduler, next_position, total_delay}
use carma_streets.Scheduler.AllStop.Departing.{departure_position_comparator}
use carma_streets.Scheduler.AllStop.Positions.{Numbered, Numbered-below, next_position-Numbered}
use carma_streets.Scheduler.AllStop.Ready.{
  delay_comparator, permutation_fuel, consider_each, add_ready, schedule_rdvs_on, schedule_rdvs,
  consider_departure_position_permutation,
}
use carma_streets.Scheduler.AllStop.Ready.Loop.{consider_each-All, consider_each-first}
use carma_streets.Scheduler.AllStop.Ready.Granted.{
  add_ready-Numbered, add_ready-skip, Placed-Numbered,
}
use carma_streets.Scheduler.AllStop.Ready.Options.{Placed, consider-Placed}

delay_by_key :
    (a b : List AllStopSchedule)
    → ((delay_comparator a b ≡ true) × (total_delay a < total_delay b))
      ⊎ ((delay_comparator a b ≡ false) × (total_delay b ≤ total_delay a))
unfolding delay_comparator
delay_by_key a b = ground arith

module _ {F : Type 0} where
  -- What every valid option has in common.
  abbrev pub IsOption :
      AllStopScheduler F → List (Vehicle F) → List AllStopSchedule → List AllStopSchedule → Type 0
  IsOption scheduler rdvs schedules o =
      (ws : List (Vehicle F)) × (new : List AllStopSchedule) × Permᴰ ws rdvs
      × (o ≡ schedules ++ new)
      × Placed scheduler (1 + length schedules) schedules ws new

module _ {F : Type 0} (d : Double F) (scheduler : AllStopScheduler F) (timestamp : ℕ) where
  -- A call that ends without a choice has changed nothing; any other adds the chosen option.
  pub schedule_rdvs-outcome :
      (rdvs granted : List (Vehicle F)) (schedules : List AllStopSchedule)
      (o : Outcome (List (Vehicle F) × List AllStopSchedule))
      → schedule_rdvs d scheduler timestamp rdvs (granted, schedules) ≡ some o
      → let vs = sort departure_position_comparator rdvs in
        ((x : Fault) × (o ≡ thrown x (granted, schedules)))
        ⊎ ((best : List AllStopSchedule) × (others options : List (List AllStopSchedule))
            × (consider_each d scheduler timestamp (permutation_fuel vs) vs schedules []
                ≡ ok (some options))
            × (sort delay_comparator options ≡ best ∷ others)
            × (add_ready vs (next_position schedules) best (granted, schedules) ≡ o))
  unfolding schedule_rdvs schedule_rdvs_on
  schedule_rdvs-outcome rdvs granted schedules o h =
      let vs = sort departure_position_comparator rdvs in
      let fuel = permutation_fuel vs in
      elim (Result-cases (consider_each d scheduler timestamp fuel vs schedules [])) [
        | inr (x, failed) ↦
            let made : some (thrown x (granted, schedules)) ≡ some o =
              rw (failed, schedule_rdvs_on) at h in
            inl (x, cc made)
        | inl (none, empty) ↦ let bad : none ≡ some o = rw (empty, schedule_rdvs_on) at h in cc bad
        | inl (some options, full) ↦ elim (List-cases (sort delay_comparator options)) [
          | inl nothing ↦
              let made : some (thrown no_valid_option (granted, schedules)) ≡ some o =
                rw (full, nothing, schedule_rdvs_on) at h in
              inl (no_valid_option, cc made)
          | inr (best, others, sorted) ↦
              let made : some (add_ready vs (next_position schedules) best (granted, schedules))
                  ≡ some o =
                rw (full, sorted, schedule_rdvs_on) at h in
              inr (best, others, options, full, sorted, cc made)
        ]
      ]

  -- The first of the sorted options is an option with the least delay.
  pub chosen-IsOption :
      (rdvs : List (Vehicle F)) (schedules best : List AllStopSchedule)
      (others options : List (List AllStopSchedule))
      → let vs = sort departure_position_comparator rdvs in
        Numbered 1 schedules
        → consider_each d scheduler timestamp (permutation_fuel vs) vs schedules []
          ≡ ok (some options)
        → sort delay_comparator options ≡ best ∷ others
        → IsOption scheduler rdvs schedules best
          × All (λ o. total_delay best ≤ total_delay o) options
  chosen-IsOption rdvs schedules best others options numbered full sorted =
      let vs = sort departure_position_comparator rdvs in
      let position = next_position schedules in
      let next : position ≡ 1 + length schedules = next_position-Numbered schedules numbered in
      let all : All (IsOption scheduler rdvs schedules) options =
        consider_each-All d scheduler timestamp (IsOption scheduler rdvs schedules)
          (permutation_fuel vs) vs vs schedules [] options
          (λ us o perm valid.
            let placed = consider-Placed d scheduler timestamp us schedules position o valid in
            (
              us,
              placed.0,
              Permᴰ.trans perm (sort-perm departure_position_comparator rdvs),
              placed.1,
              rw next at placed.2,
            ))
          (Permᴰ.refl vs) tt full in
      sort-first delay_comparator total_delay delay_by_key (IsOption scheduler rdvs schedules)
        options best others sorted all

  -- Only the new schedules of an option are pushed.
  pub add_option :
      (vs rdvs granted : List (Vehicle F)) (schedules best : List AllStopSchedule)
      → Numbered 1 schedules
      → (option : IsOption scheduler rdvs schedules best)
      → (add_ready vs (next_position schedules) best (granted, schedules)
          ≡ add_ready vs (next_position schedules) option.1 (granted, schedules))
        × Numbered (next_position schedules) option.1
  add_option vs rdvs granted schedules best numbered option =
      let position = next_position schedules in
      let next : position ≡ 1 + length schedules = next_position-Numbered schedules numbered in
      let below : All (λ s. s.dp < position) schedules =
        rw next (Numbered-below 1 schedules numbered) in
      (
        rw (option.3) (add_ready-skip vs position schedules option.1 (granted, schedules) below),
        rw next
            (Placed-Numbered scheduler (1 + length schedules) schedules option.0 option.1 option.4),
      )

  -- The schedule of a call that returns is an option, and no option has less delay.
  schedule_rdvs-best :
      (rdvs granted : List (Vehicle F)) (schedules : List AllStopSchedule)
      (out : List (Vehicle F) × List AllStopSchedule)
      → Numbered 1 schedules
      → schedule_rdvs d scheduler timestamp rdvs (granted, schedules) ≡ some (done out)
      → let vs = sort departure_position_comparator rdvs in
        (options : List (List AllStopSchedule)) × (consider_each d scheduler timestamp
            (permutation_fuel vs)
            vs
            schedules
            []
          ≡ ok (some options))
        × All (λ o. total_delay out.1 ≤ total_delay o) options
        × IsOption scheduler rdvs schedules out.1
  schedule_rdvs-best rdvs granted schedules out numbered h =
      let vs = sort departure_position_comparator rdvs in
      let position = next_position schedules in
      elim (schedule_rdvs-outcome rdvs granted schedules (done out) h) [
        | inl (x, bad) ↦ cc bad
        | inr (best, others, options, full, sorted, pushed) ↦
            let (option, least) =
              chosen-IsOption rdvs schedules best others options numbered full sorted in
            let (skipped, numbered_new) =
              add_option vs rdvs granted schedules best numbered option in
            let made : out.1 ≡ schedules ++ option.1 =
              add_ready-Numbered vs position option.1 (granted, schedules) out numbered_new
                (sym skipped ∙ pushed) in
            let same : out.1 ≡ best = made ∙ sym option.3 in
            (options, full, rw same least, (option.0, option.1, option.2, made, option.4))
      ]

  -- When schedule_rdvs returns, on schedules whose positions count from 1, it has added one schedule for
  -- each ready vehicle, in an order that moves nobody further than the flexibility limit; each enters
  -- after the conflicting ones before have departed, and has access only behind a vehicle with access
  -- and with no conflicting one before.
  pub schedule_rdvs-Placed :
      (rdvs granted : List (Vehicle F)) (schedules : List AllStopSchedule)
      (out : List (Vehicle F) × List AllStopSchedule)
      → Numbered 1 schedules
      → schedule_rdvs d scheduler timestamp rdvs (granted, schedules) ≡ some (done out)
      → (ws : List (Vehicle F)) × (new : List AllStopSchedule) × Permᴰ ws rdvs
        × (out.1 ≡ schedules ++ new)
        × Placed scheduler (1 + length schedules) schedules ws new
  schedule_rdvs-Placed rdvs granted schedules out numbered h =
      (schedule_rdvs-best rdvs granted schedules out numbered h).3

  -- When schedule_rdvs returns, on schedules whose positions count from 1, and keeping the order of the
  -- departure positions is a valid option, then the schedule has no more total delay than that option.
  pub schedule_rdvs_least :
      (rdvs granted : List (Vehicle F)) (schedules : List AllStopSchedule)
      (out : List (Vehicle F) × List AllStopSchedule) (o : List AllStopSchedule)
      → Numbered 1 schedules
      → schedule_rdvs d scheduler timestamp rdvs (granted, schedules) ≡ some (done out)
      → consider_departure_position_permutation d scheduler timestamp
          (sort departure_position_comparator rdvs)
          schedules
          (next_position schedules)
        ≡ ok (some o)
      → total_delay out.1 ≤ total_delay o
  schedule_rdvs_least rdvs granted schedules out o numbered h valid =
      let vs = sort departure_position_comparator rdvs in
      let best = schedule_rdvs-best rdvs granted schedules out numbered h in
      let first =
        consider_each-first d scheduler timestamp (permutation_fuel vs) vs schedules o best.0 valid
          best.1 in
      let least : All (λ p. total_delay out.1 ≤ total_delay p) (o ∷ first.0) =
        rw (first.1) at best.2 in
      least.0
