-- ===== src/Scheduler/AllStop/Service/Parts.antt =====
-- all_stop_vehicle_scheduler.cpp: what each of schedule_dvs, schedule_rdvs and schedule_evs adds, whether
-- it returns or throws.
use mathlib.Core.List.Permᴰ
use mathlib.Core.List.{append_assoc, append-nil}
use carma_streets.Base.{
  ℕ, zero, suc, ◌+◌, ◌≡◌, refl, sym, ◌∙◌, inl, inr, leb, List, [], ◌∷◌, ◌++◌, length, All, true,
  sort, sort-perm, All-Perm, none, some, List-cases, ok, err, Result-cases, Outcome, done, thrown,
  final, no_entering_vehicles, arith,
}
use carma_streets.Double.{Double}
use carma_streets.Vehicles.{Vehicle}
use carma_streets.Scheduler.{IntersectionInfo, get_link_lanelet_info, distance_comparator}
use carma_streets.Scheduler.AllStop.{AllStopSchedule, AllStopScheduler, next_position}
use carma_streets.Scheduler.AllStop.Conflicts.{Clear}
use carma_streets.Scheduler.AllStop.Departing.{
  departure_position_comparator, departing_schedule, schedule_departing, schedule_each_departing,
  schedule_dvs,
}
use carma_streets.Scheduler.AllStop.Positions.{Numbered, next_position-Numbered}
use carma_streets.Scheduler.AllStop.Queues.{
  Queues, assign, preceding_vehicles, vehicle_to_be_scheduled_next, pop_vehicle, waiting,
  select_next, schedule_rounds, schedule_evs,
}
use carma_streets.Scheduler.AllStop.Queues.Lanes.{
  IsSorted, Popped, IsSorted-Popped, vehicle_to_be_scheduled_next-IsSorted,
}
use carma_streets.Scheduler.AllStop.Queues.Selection.{Entered-Clear, pop_chosen}
use carma_streets.Scheduler.AllStop.Ready.{remember_access, add_ready, schedule_rdvs}
use carma_streets.Scheduler.AllStop.Ready.Chosen.{
  schedule_rdvs-outcome, chosen-IsOption, add_option,
}
use carma_streets.Scheduler.AllStop.Ready.Granted.{Placed-Clear}

-- The first part of a sound list is sound.
Numbered-prefix :
    (from : ℕ) (pre post : List AllStopSchedule) → Numbered from (pre ++ post) → Numbered from pre
Numbered-prefix from [] post h = tt
Numbered-prefix from (s ∷ pre) post h = (h.0, Numbered-prefix (suc from) pre post h.1)

module _ {F : Type 0} where
  Clear-prefix :
      (info : IntersectionInfo F) (before pre post : List AllStopSchedule)
      → Clear info before (pre ++ post)
      → Clear info before pre
  Clear-prefix info before [] post h = tt
  Clear-prefix info before (s ∷ pre) post h =
      (h.0, Clear-prefix info (before ++ s ∷ []) pre post h.1)

  -- What the three parts have in common: the list goes on with sound schedules.
  abbrev pub Continues : IntersectionInfo F → List AllStopSchedule → List AllStopSchedule → Type 0
  Continues info schedules out =
      (new : List AllStopSchedule) × (out ≡ schedules ++ new)
      × Numbered (1 + length schedules) new
      × Clear info schedules new

  -- The schedule of one of the vehicles with the property, with access.
  abbrev pub Departs : (Vehicle F → Type 0) → AllStopSchedule → Type 0
  Departs P s =
      (s.access ≡ true) × (v : Vehicle F) × (s.v_id ≡ v.id) × (s.link_id ≡ v.link_id) × P v

  module _ (d : Double F) (info : IntersectionInfo F) (timestamp : ℕ)
      (granted : List (Vehicle F)) where
    schedule_departing-Departs :
        (P : Vehicle F → Type 0) (position : ℕ) (v : Vehicle F) (s : AllStopSchedule)
        → P v
        → schedule_departing d info timestamp granted position v ≡ ok s
        → (s.dp ≡ position) × Departs P s
    unfolding schedule_departing departing_schedule
    schedule_departing-Departs P position v s p h =
        elim (Result-cases (get_link_lanelet_info info v)) [
          | inr (x, missing) ↦
              let bad : err x ≡ ok s = rw (missing, schedule_departing) at h in cc bad
          | inl (link, found) ↦
              let made : ok (departing_schedule d info timestamp granted position v link) ≡ ok s =
                rw (found, schedule_departing) at h in
              let eq : departing_schedule d info timestamp granted position v link ≡ s = cc made in
              rw (← eq) (refl, (refl, v, refl, refl, p))
        ]

    schedule_each_departing-Departs :
        (P : Vehicle F → Type 0) (position : ℕ) (vs : List (Vehicle F))
        (schedules : List AllStopSchedule)
        → All P vs
        → (new : List AllStopSchedule) × (final
              (schedule_each_departing d info timestamp granted position vs schedules)
            ≡ schedules ++ new)
          × Numbered position new
          × All (Departs P) new
    unfolding schedule_each_departing
    schedule_each_departing-Departs P position [] schedules all =
        ([], sym (append-nil schedules), tt, tt)
    schedule_each_departing-Departs P position (v ∷ vs) schedules all =
        elim (Result-cases (schedule_departing d info timestamp granted position v)) [
          | inr (x, failed) ↦
              rw (failed, schedule_each_departing) ([], sym (append-nil schedules), tt, tt)
          | inl (s, made) ↦
              let here = schedule_departing-Departs P position v s all.0 made in
              let rest =
                schedule_each_departing-Departs P (suc position) vs (schedules ++ s ∷ []) all.1 in
              rw (made, schedule_each_departing)
                (
                  s ∷ rest.0,
                  rest.1 ∙ append_assoc schedules (s ∷ []) rest.0,
                  (here.0, rest.2),
                  (here.1, rest.3),
                )
        ]

    pub schedule_dvs-Departs :
        (P : Vehicle F → Type 0) (dvs : List (Vehicle F))
        → All P dvs
        → let out = final (schedule_dvs d info timestamp granted dvs []) in
          Numbered 1 out × All (Departs P) out
    unfolding schedule_dvs
    schedule_dvs-Departs P dvs all =
        let vs = sort departure_position_comparator dvs in
        let sorted : All P vs =
          All-Perm P (Permᴰ.symm (sort-perm departure_position_comparator dvs)) all in
        let made = schedule_each_departing-Departs P 1 vs [] sorted in rw made.1 (made.2, made.3)

  add_ready-prefix :
      (rdvs : List (Vehicle F)) (position : ℕ) (new : List AllStopSchedule)
      (state : List (Vehicle F) × List AllStopSchedule)
      → Numbered position new
      → (pre post : List AllStopSchedule) × (new ≡ pre ++ post)
        × ((final (add_ready rdvs position new state)).1 ≡ state.1 ++ pre)
  unfolding add_ready
  add_ready-prefix rdvs position [] state h = ([], [], refl, sym (append-nil state.1))
  add_ready-prefix rdvs position (s ∷ ss) state h =
      let here : s.dp ≡ position = h.0 in
      let pushed : leb position s.dp ≡ true = ground arith in
      elim (Result-cases (remember_access rdvs s state.0)) [
        | inr (x, missing) ↦
            rw (pushed, missing, add_ready) ([], s ∷ ss, refl, sym (append-nil state.1))
        | inl (gs, found) ↦
            let rest = add_ready-prefix rdvs (suc position) ss (gs, state.1 ++ s ∷ []) h.1 in
            rw (pushed, found, add_ready)
              (
                s ∷ rest.0,
                rest.1,
                rw (← rest.2) refl,
                rest.3 ∙ append_assoc state.1 (s ∷ []) rest.0,
              )
      ]

  module _ (d : Double F) (scheduler : AllStopScheduler F) (timestamp : ℕ) where
    open scheduler use {intersection_info}

    pub schedule_rdvs-Continues :
        (rdvs granted : List (Vehicle F)) (schedules : List AllStopSchedule)
        (o : Outcome (List (Vehicle F) × List AllStopSchedule))
        → Numbered 1 schedules
        → schedule_rdvs d scheduler timestamp rdvs (granted, schedules) ≡ some o
        → Continues intersection_info schedules (final o).1
    schedule_rdvs-Continues rdvs granted schedules o numbered h =
        let vs = sort departure_position_comparator rdvs in
        elim (schedule_rdvs-outcome d scheduler timestamp rdvs granted schedules o h) [
          | inl (x, failed) ↦ rw failed ([], sym (append-nil schedules), tt, tt)
          | inr (best, others, options, full, sorted, pushed) ↦
              let (option, least) =
                chosen-IsOption d scheduler timestamp rdvs schedules best others options numbered
                  full sorted in
              let (skipped, numbered_new) =
                add_option d scheduler timestamp vs rdvs granted schedules best numbered option in
              let part =
                add_ready-prefix vs (next_position schedules) option.1 (granted, schedules)
                  numbered_new in
              let next = next_position-Numbered schedules numbered in
              let all_numbered : Numbered (1 + length schedules) (part.0 ++ part.1) =
                rw (next, part.2) at numbered_new in
              let all_clear : Clear intersection_info schedules (part.0 ++ part.1) = rw part.2 at (
                Placed-Clear scheduler (1 + length schedules) schedules option.0 option.1
                  option.4) in
              let same : add_ready vs (next_position schedules) option.1 (granted, schedules) ≡ o =
                sym skipped ∙ pushed in
              (
                part.0,
                rw (← same) part.3,
                Numbered-prefix (1 + length schedules) part.0 part.1 all_numbered,
                Clear-prefix intersection_info schedules part.0 part.1 all_clear,
              )
        ]

    schedule_rounds-Clear :
        (fuel position : ℕ) (preceding : List (ℕ × AllStopSchedule)) (queues : Queues F)
        (before : List AllStopSchedule) (o : Outcome (List AllStopSchedule))
        → IsSorted queues
        → schedule_rounds d scheduler fuel position preceding queues before ≡ some o
        → (new : List AllStopSchedule) × (final o ≡ before ++ new)
          × Numbered position new
          × Clear intersection_info before new
    unfolding schedule_rounds
    schedule_rounds-Clear zero position preceding queues before o sorted h = cc h
    schedule_rounds-Clear (suc fuel) position preceding queues before o sorted h =
        elim (Result-cases (select_next d scheduler before position preceding queues 0 none)) [
          | inr (x, failed) ↦
              let made : some (thrown x before) ≡ some o = rw (failed, schedule_rounds) at h in
              let eq : thrown x before ≡ o = cc made in
              rw (← eq) ([], sym (append-nil before), tt, tt)
          | inl (none, nobody) ↦
              let made : some (done before) ≡ some o = rw (nobody, schedule_rounds) at h in
              let eq : done before ≡ o = cc made in rw (← eq) ([], sym (append-nil before), tt, tt)
          | inl (some s, chosen) ↦
              let popped =
                pop_chosen d scheduler before position preceding queues s sorted chosen in
              let (at_position, clear) =
                Entered-Clear d scheduler before position preceding popped.0 s popped.1 in
              elim (List-cases (pop_vehicle s.entry_lane queues)) [
                | inl empty ↦
                    let made : some (done (before ++ s ∷ [])) ≡ some o =
                      rw (chosen, empty, schedule_rounds) at h in
                    let eq : done (before ++ s ∷ []) ≡ o = cc made in
                    rw (← eq) (s ∷ [], refl, (at_position, tt), (clear, tt))
                | inr (q, qs, more) ↦
                    let left : Popped queues popped.0 (q ∷ qs) = rw more at popped.2 in
                    let rest =
                      schedule_rounds-Clear fuel (suc position) (assign s.entry_lane s preceding)
                        (q ∷ qs) (before ++ s ∷ []) o (IsSorted-Popped left sorted)
                        (rw (chosen, more, schedule_rounds) at h) in
                    (
                      s ∷ rest.0,
                      rest.1 ∙ append_assoc before (s ∷ []) rest.0,
                      (at_position, rest.2),
                      (clear, rest.3),
                    )
              ]
        ]

    pub schedule_evs-Continues :
        (evs : List (Vehicle F)) (schedules : List AllStopSchedule)
        (o : Outcome (List AllStopSchedule))
        → Numbered 1 schedules
        → schedule_evs d scheduler timestamp evs schedules ≡ some o
        → Continues intersection_info schedules (final o)
    unfolding schedule_evs
    schedule_evs-Continues evs schedules o numbered h =
        let queues =
          vehicle_to_be_scheduled_next (sort (distance_comparator d) evs)
            intersection_info.entry_lanelets [] in
        let sorted : IsSorted queues =
          vehicle_to_be_scheduled_next-IsSorted (sort (distance_comparator d) evs)
            intersection_info.entry_lanelets [] (tt, tt) in
        elim (List-cases queues) [
          | inl empty ↦
              let made : some (thrown no_entering_vehicles schedules) ≡ some o =
                rw (empty, schedule_evs) at h in
              let eq : thrown no_entering_vehicles schedules ≡ o = cc made in
              rw (← eq) ([], sym (append-nil schedules), tt, tt)
          | inr (q, qs, more) ↦
              let made =
                schedule_rounds-Clear (waiting (q ∷ qs)) (next_position schedules)
                  (preceding_vehicles scheduler.entering_time_buffer timestamp schedules
                    intersection_info.entry_lanelets [])
                  (q ∷ qs) schedules o (rw more at sorted) (rw (more, schedule_evs) at h) in
              (made.0, made.1, rw (next_position-Numbered schedules numbered) at made.2, made.3)
        ]
