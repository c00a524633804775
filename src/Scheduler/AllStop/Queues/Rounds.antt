-- ===== src/Scheduler/AllStop/Queues/Rounds.antt =====
-- all_stop_vehicle_scheduler.cpp, schedule_evs: what the rounds over the lanes make.
use mathlib.Core.List.{Permᴰ, append_assoc, append-nil}
use carma_streets.Base.{
  ℕ, zero, suc, ◌≤◌, ◌≡◌, ◌≢◌, refl, sym, ◌∙◌, inl, inr, List, [], ◌∷◌, ◌++◌, map, none, some,
  List-cases, Result-cases, done, thrown, no_entering_vehicles, sort, arith,
}
use carma_streets.Double.{Double}
use carma_streets.Vehicles.{Vehicle}
use carma_streets.Scheduler.{distance_comparator}
use carma_streets.Scheduler.AllStop.{AllStopSchedule, AllStopScheduler, next_position}
use carma_streets.Scheduler.AllStop.Queues.{
  Queues, assign, preceding_vehicles, vehicle_to_be_scheduled_next, pop_vehicle, waiting,
  select_next, schedule_rounds, schedule_evs,
}
use carma_streets.Scheduler.AllStop.Queues.Lanes.{
  IsSorted, everyone, Popped, waiting-Popped, everyone-Popped, IsSorted-Popped,
  vehicle_to_be_scheduled_next-IsSorted,
}
use carma_streets.Scheduler.AllStop.Queues.Ahead.{
  Enters, Holds, preceding_vehicles-Holds, assign-Holds, Entered-Enters,
}
use carma_streets.Scheduler.AllStop.Queues.Selection.{select_next-none, pop_chosen}

waiting_pos :
    {F : Type 0} (q : ℕ × (Vehicle F × List (Vehicle F))) (qs : Queues F) → 1 ≤ waiting (q ∷ qs)
unfolding waiting
waiting_pos (lane, (v, vs)) qs = omega arith

module _ {F : Type 0} (d : Double F) (scheduler : AllStopScheduler F) where
  open scheduler use {intersection_info, entering_time_buffer}

  module _ (timestamp : ℕ) (schedules : List AllStopSchedule) where
    -- Each round takes the first vehicle of a lane; `made` are the new schedules so far.
    abbrev pub InTurn : ℕ → List AllStopSchedule → Queues F → List AllStopSchedule → Type 0
    InTurn position made queues [] = queues ≡ []
    InTurn position made queues (s ∷ ss) =
        (v : Vehicle F) × (rest : Queues F) × Popped queues v rest
        × Enters d scheduler timestamp schedules made position v s
        × InTurn (suc position) (made ++ s ∷ []) rest ss

    schedule_rounds-InTurn :
        (fuel position : ℕ) (preceding : List (ℕ × AllStopSchedule)) (queues : Queues F)
        (made out : List AllStopSchedule)
        → IsSorted queues
        → Holds d scheduler timestamp schedules preceding made
        → schedule_rounds d scheduler fuel position preceding queues (schedules ++ made)
          ≡ some (done out)
        → (new : List AllStopSchedule) × (out ≡ (schedules ++ made) ++ new)
          × InTurn position made queues new
    unfolding schedule_rounds
    schedule_rounds-InTurn zero position preceding queues made out sorted holds h = cc h
    schedule_rounds-InTurn (suc fuel) position preceding queues made out sorted holds h =
        let before = schedules ++ made in
        elim (Result-cases (select_next d scheduler before position preceding queues 0 none)) [
          | inr (x, failed) ↦
              let bad : some (thrown x before) ≡ some (done out) =
                rw (failed, schedule_rounds) at h in
              cc bad
          | inl (none, nobody) ↦
              let last : some (done before) ≡ some (done out) = rw (nobody, schedule_rounds) at h in
              let eq : before ≡ out = cc last in
              (
                [],
                rw (append-nil before) (sym eq),
                select_next-none d scheduler before position preceding queues nobody,
              )
          | inl (some s, chosen) ↦
              let popped =
                pop_chosen d scheduler before position preceding queues s sorted chosen in
              let enters =
                Entered-Enters d scheduler timestamp schedules preceding made position popped.0 s
                  holds popped.1 in
              elim (List-cases (pop_vehicle s.entry_lane queues)) [
                | inl empty ↦
                    let last : some (done (before ++ s ∷ [])) ≡ some (done out) =
                      rw (chosen, empty, schedule_rounds) at h in
                    let eq : before ++ s ∷ [] ≡ out = cc last in
                    (s ∷ [], sym eq, (popped.0, [], (rw empty at popped.2), enters, refl))
                | inr (q, qs, more) ↦
                    let left : Popped queues popped.0 (q ∷ qs) = rw more at popped.2 in
                    let on : before ++ s ∷ [] ≡ schedules ++ (made ++ s ∷ []) =
                      append_assoc schedules made (s ∷ []) in
                    let rest =
                      schedule_rounds-InTurn fuel (suc position) (assign s.entry_lane s preceding)
                        (q ∷ qs) (made ++ s ∷ []) out (IsSorted-Popped left sorted)
                        (assign-Holds d scheduler timestamp schedules preceding made s holds)
                        (rw (chosen, more, schedule_rounds, on) at h) in
                    (
                      s ∷ rest.0,
                      (rw (← on) at rest.1) ∙ append_assoc before (s ∷ []) rest.0,
                      (popped.0, q ∷ qs, left, enters, rest.2),
                    )
              ]
        ]

    -- The rounds serve every waiting vehicle once.
    InTurn-everyone :
        (position : ℕ) (made : List AllStopSchedule) (queues : Queues F)
        (new : List AllStopSchedule)
        → InTurn position made queues new
        → (vs : List (Vehicle F)) × Permᴰ vs (everyone queues)
          × (map (λ s. s.v_id) new ≡ map (λ v. v.id) vs)
    InTurn-everyone position made queues [] h = ([], rw h Permᴰ.nil, refl)
    InTurn-everyone position made queues (s ∷ ss) h =
        let rest = InTurn-everyone (suc position) (made ++ s ∷ []) h.1 ss h.4 in
        let same : s.v_id ≡ h.0.id = h.3.2 in
        (
          h.0 ∷ rest.0,
          Permᴰ.trans (Permᴰ.cons refl rest.1) (everyone-Popped h.2),
          rw (same, rest.2) refl,
        )

  -- A round for each waiting vehicle is enough.
  schedule_rounds_total :
      (fuel position : ℕ) (preceding : List (ℕ × AllStopSchedule)) (queues : Queues F)
      (before : List AllStopSchedule)
      → IsSorted queues
      → 1 ≤ fuel
      → waiting queues ≤ fuel
      → schedule_rounds d scheduler fuel position preceding queues before ≢ none
  unfolding schedule_rounds
  schedule_rounds_total zero position preceding queues before sorted some_fuel enough h =
      omega arith
  schedule_rounds_total (suc fuel) position preceding queues before sorted some_fuel enough h =
      elim (Result-cases (select_next d scheduler before position preceding queues 0 none)) [
        | inr (x, failed) ↦
            let bad : some (thrown x before) ≡ none = rw (failed, schedule_rounds) at h in cc bad
        | inl (none, nobody) ↦
            let bad : some (done before) ≡ none = rw (nobody, schedule_rounds) at h in cc bad
        | inl (some s, chosen) ↦
            let popped = pop_chosen d scheduler before position preceding queues s sorted chosen in
            elim (List-cases (pop_vehicle s.entry_lane queues)) [
              | inl empty ↦
                  let bad : some (done (before ++ s ∷ [])) ≡ none =
                    rw (chosen, empty, schedule_rounds) at h in
                  cc bad
              | inr (q, qs, more) ↦
                  let left : Popped queues popped.0 (q ∷ qs) = rw more at popped.2 in
                  let fewer : waiting queues ≡ suc (waiting (q ∷ qs)) = waiting-Popped left in
                  let someone : 1 ≤ waiting (q ∷ qs) = waiting_pos q qs in
                  schedule_rounds_total fuel (suc position) (assign s.entry_lane s preceding)
                    (q ∷ qs) (before ++ s ∷ []) (IsSorted-Popped left sorted) (omega arith)
                    (omega arith) (rw (chosen, more, schedule_rounds) at h)
            ]
      ]

  -- Every call ends: there is fuel for all.
  pub schedule_evs_total :
      (timestamp : ℕ) (evs : List (Vehicle F)) (schedules : List AllStopSchedule)
      → schedule_evs d scheduler timestamp evs schedules ≢ none
  unfolding schedule_evs
  schedule_evs_total timestamp evs schedules h =
      let queues =
        vehicle_to_be_scheduled_next (sort (distance_comparator d) evs)
          intersection_info.entry_lanelets [] in
      let sorted : IsSorted queues =
        vehicle_to_be_scheduled_next-IsSorted (sort (distance_comparator d) evs)
          intersection_info.entry_lanelets [] (tt, tt) in
      elim (List-cases queues) [
        | inl empty ↦
            let bad : some (thrown no_entering_vehicles schedules) ≡ none =
              rw (empty, schedule_evs) at h in
            cc bad
        | inr (q, qs, more) ↦
            schedule_rounds_total (waiting (q ∷ qs)) (next_position schedules)
              (preceding_vehicles entering_time_buffer timestamp schedules
                intersection_info.entry_lanelets [])
              (q ∷ qs) schedules (rw more at sorted) (waiting_pos q qs) (omega arith)
              (rw (more, schedule_evs) at h)
      ]

  -- When schedule_evs returns, it has added the schedules of rounds that each take the first vehicle of
  -- a lane from the map of lanes, until nobody waits; so every vehicle that waits in an entry lane is
  -- scheduled once. A vehicle's stopping time is its earliest one, or the entering time buffer behind
  -- the entering time of a schedule ahead, if that is later. This is the last new schedule whose entry
  -- lane is the vehicle's current lane; without one, where the current lane is an entry lane, the first
  -- of the schedules from before, in whatever lane, of a ready vehicle or of a departing one whose
  -- entering time is at most the buffer after the timestamp (the difference is taken modulo 2^64). The
  -- entering time is not before the stopping time or the departures of the conflicting schedules.
  pub schedule_evs-InTurn :
      (timestamp : ℕ) (evs : List (Vehicle F)) (schedules out : List AllStopSchedule)
      → schedule_evs d scheduler timestamp evs schedules ≡ some (done out)
      → (new : List AllStopSchedule) × (out ≡ schedules ++ new)
        × InTurn timestamp schedules
            (next_position schedules)
            []
            (vehicle_to_be_scheduled_next
              (sort (distance_comparator d) evs)
              intersection_info.entry_lanelets
              [])
            new
        × (vs : List (Vehicle F)) × Permᴰ vs (
            everyone (
              vehicle_to_be_scheduled_next
                (sort (distance_comparator d) evs)
                intersection_info.entry_lanelets
                []))
        × (map (λ s. s.v_id) new ≡ map (λ v. v.id) vs)
  unfolding schedule_evs
  schedule_evs-InTurn timestamp evs schedules out h =
      let queues =
        vehicle_to_be_scheduled_next (sort (distance_comparator d) evs)
          intersection_info.entry_lanelets [] in
      let sorted : IsSorted queues =
        vehicle_to_be_scheduled_next-IsSorted (sort (distance_comparator d) evs)
          intersection_info.entry_lanelets [] (tt, tt) in
      elim (List-cases queues) [
        | inl empty ↦
            let bad : some (thrown no_entering_vehicles schedules) ≡ some (done out) =
              rw (empty, schedule_evs) at h in
            cc bad
        | inr (q, qs, more) ↦
            let made =
              schedule_rounds-InTurn timestamp schedules (waiting (q ∷ qs))
                (next_position schedules)
                (preceding_vehicles entering_time_buffer timestamp schedules
                  intersection_info.entry_lanelets [])
                (q ∷ qs) [] out (rw more at sorted)
                (preceding_vehicles-Holds d scheduler timestamp schedules)
                (rw (append-nil schedules) (rw (more, schedule_evs) at h)) in
            let served =
              InTurn-everyone timestamp schedules (next_position schedules) [] (q ∷ qs) made.0
                made.2 in
            (
              made.0,
              (rw (append-nil schedules) at made.1),
              rw more made.2,
              served.0,
              rw more served.1,
              served.2,
            )
      ]
