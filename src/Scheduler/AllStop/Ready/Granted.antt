-- ===== src/Scheduler/AllStop/Ready/Granted.antt =====
-- all_stop_vehicle_scheduler.cpp, schedule_rdvs: how the option is added, and that the call ends.
use mathlib.Core.List.{append_assoc, append-nil}
use carma_streets.Base.{
  ℕ, suc, ◌<◌, ◌≡◌, ◌≢◌, refl, sym, ◌∙◌, inl, inr, leb, List, [], ◌∷◌, ◌++◌, All, List-cases, true,
  false, sort, none, some, Result-cases, done, thrown, no_valid_option, arith,
}
use carma_streets.Double.{Double}
use carma_streets.Vehicles.{Vehicle}
use carma_streets.Scheduler.AllStop.{AllStopSchedule, AllStopScheduler, next_position}
use carma_streets.Scheduler.AllStop.Departing.{departure_position_comparator}
use carma_streets.Scheduler.AllStop.Positions.{Numbered}
use carma_streets.Scheduler.AllStop.Ready.{
  delay_comparator, largest_position, permutation_fuel, consider_each, add_ready, remember_access,
  schedule_rdvs_on, schedule_rdvs,
}
use carma_streets.Scheduler.AllStop.Ready.Loop.{key-bound, consider_each_total}
use carma_streets.Scheduler.AllStop.Conflicts.{Clear, link_of}
use carma_streets.Scheduler.AllStop.Ready.Options.{Placed}

module _ {F : Type 0} where
  -- Behind the schedules that are below the position, every schedule is pushed.
  pub add_ready-Numbered :
      (rdvs : List (Vehicle F)) (position : ℕ) (new : List AllStopSchedule)
      (state out : List (Vehicle F) × List AllStopSchedule)
      → Numbered position new
      → add_ready rdvs position new state ≡ done out
      → out.1 ≡ state.1 ++ new
  unfolding add_ready
  add_ready-Numbered rdvs position [] state out h k =
      let eq : state ≡ out = cc k in rw (← eq) (sym (append-nil state.1))
  add_ready-Numbered rdvs position (s ∷ ss) state out h k =
      let here : s.dp ≡ position = h.0 in
      let pushed : leb position s.dp ≡ true = ground arith in
      elim (Result-cases (remember_access rdvs s state.0)) [
        | inr (x, missing) ↦
            let bad : thrown x state ≡ done out = rw (pushed, missing, add_ready) at k in cc bad
        | inl (gs, found) ↦
            add_ready-Numbered rdvs (suc position) ss (gs, state.1 ++ s ∷ []) out h.1
              (rw (pushed, found, add_ready) at k)
            ∙ append_assoc state.1 (s ∷ []) ss
      ]

  pub add_ready-skip :
      (rdvs : List (Vehicle F)) (position : ℕ) (old new : List AllStopSchedule)
      (state : List (Vehicle F) × List AllStopSchedule)
      → All (λ s. s.dp < position) old
      → add_ready rdvs position (old ++ new) state ≡ add_ready rdvs position new state
  unfolding add_ready
  add_ready-skip rdvs position [] new state h = refl
  add_ready-skip rdvs position (s ∷ ss) new state h =
      let below : s.dp < position = h.0 in
      let skipped : leb position s.dp ≡ false = ground arith in
      rw (skipped, add_ready) (add_ready-skip rdvs position ss new state h.1)

  pub Placed-Numbered :
      (scheduler : AllStopScheduler F) (position : ℕ) (before : List AllStopSchedule)
      (vs : List (Vehicle F)) (new : List AllStopSchedule)
      → Placed scheduler position before vs new
      → Numbered position new
  Placed-Numbered scheduler position before [] [] h = tt
  Placed-Numbered scheduler position before [] (s ∷ ss) h = elim h [ ]
  Placed-Numbered scheduler position before (v ∷ vs) [] h = elim h [ ]
  Placed-Numbered scheduler position before (v ∷ vs) (s ∷ ss) h =
      (h.0.4, Placed-Numbered scheduler (suc position) (before ++ s ∷ []) vs ss h.1)

  -- Enough fuel is given: the loop over the permutations ends.
  pub schedule_rdvs_total :
      (d : Double F) (scheduler : AllStopScheduler F) (timestamp : ℕ) (rdvs : List (Vehicle F))
      (state : List (Vehicle F) × List AllStopSchedule)
      → schedule_rdvs d scheduler timestamp rdvs state ≢ none
  unfolding schedule_rdvs schedule_rdvs_on permutation_fuel
  schedule_rdvs_total d scheduler timestamp rdvs (granted, schedules) h =
      let vs = sort departure_position_comparator rdvs in
      let fuel = permutation_fuel vs in
      let enough =
        consider_each_total d scheduler timestamp (suc (largest_position vs)) fuel vs schedules []
          (key-bound vs) (omega arith) in
      elim (Result-cases (consider_each d scheduler timestamp fuel vs schedules [])) [
        | inr (x, failed) ↦
            let bad : some (thrown x (granted, schedules)) ≡ none =
              rw (failed, schedule_rdvs_on) at h in
            cc bad
        | inl (none, empty) ↦ enough empty
        | inl (some options, full) ↦ elim (List-cases (sort delay_comparator options)) [
          | inl nothing ↦
              let bad : some (thrown no_valid_option (granted, schedules)) ≡ none =
                rw (full, nothing, schedule_rdvs_on) at h in
              cc bad
          | inr (best, others, sorted) ↦
              let bad : some (add_ready vs (next_position schedules) best (granted, schedules))
                  ≡ none =
                rw (full, sorted, schedule_rdvs_on) at h in
              cc bad
        ]
      ]

  -- Of the new schedules none is in the way of those before.
  pub Placed-Clear :
      (scheduler : AllStopScheduler F) (position : ℕ) (before : List AllStopSchedule)
      (vs : List (Vehicle F)) (new : List AllStopSchedule)
      → Placed scheduler position before vs new
      → Clear scheduler.intersection_info before new
  Placed-Clear scheduler position before [] [] h = tt
  Placed-Clear scheduler position before [] (s ∷ ss) h = elim h [ ]
  Placed-Clear scheduler position before (v ∷ vs) [] h = elim h [ ]
  Placed-Clear scheduler position before (v ∷ vs) (s ∷ ss) h =
      let at_link : s.link_id ≡ v.link_id = h.0.3 in
      (
        (
          h.0.0,
          rw at_link (link_of scheduler.intersection_info v h.0.0 h.0.1),
          h.0.6,
          elim h.0.7 [ inl waits ↦ inl waits | inr (follows, apart) ↦ inr apart ],
        ),
        Placed-Clear scheduler (suc position) (before ++ s ∷ []) vs ss h.1,
      )
