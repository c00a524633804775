-- ===== src/Scheduler/AllStop/Queues/Least.antt =====
-- all_stop_vehicle_scheduler.cpp, schedule_evs: that the first vehicle to stop is the next.
use carma_streets.Base.{
  ℕ, ◌≤◌, ◌≡◌, refl, inl, inr, List, [], ◌∷◌, All, none, some, Option-cases, lookup, ok, arith,
}
use carma_streets.Double.{Double}
use carma_streets.Vehicles.{Vehicle}
use carma_streets.Scheduler.AllStop.{
  AllStopSchedule, AllStopScheduler, estimate_earliest_time_to_stop_bar,
}
use carma_streets.Scheduler.AllStop.Queues.{Queues, stopping_time, select_next}
use carma_streets.Scheduler.AllStop.Queues.Selection.{Entered, select_next-step}

module _ {F : Type 0} (d : Double F) (scheduler : AllStopScheduler F) where
  open scheduler use {intersection_info, entering_time_buffer}

  -- The vehicle cannot have stopped at the epoch.
  abbrev pub StopsLater : ℕ × (Vehicle F × List (Vehicle F)) → Type 0
  StopsLater q =
      (est : ℕ) → estimate_earliest_time_to_stop_bar d intersection_info q.1.0 ≡ ok est → 1 ≤ est

  stopping_time_not_before :
      (preceding : List (ℕ × AllStopSchedule)) (v : Vehicle F) (est : ℕ)
      → est ≤ stopping_time d scheduler preceding v est
  unfolding stopping_time
  stopping_time_not_before preceding v est = elim (Option-cases (lookup v.cur_lane_id preceding)) [
    | inl alone ↦ rw (alone, stopping_time) (omega arith)
    | inr (p, follows) ↦ rw (follows, stopping_time) (omega arith)
  ]

  module _ (before : List AllStopSchedule) (position : ℕ)
      (preceding : List (ℕ × AllStopSchedule)) where
    -- Each of the first vehicles stops no sooner.
    abbrev pub NoneSooner : ℕ → Queues F → Type 0
    NoneSooner st queues =
        All
          (λ q.
            (t : AllStopSchedule) × Entered d scheduler before position preceding q.1.0 t
            × (st ≤ t.st))
          queues

    select_next-from :
        (queues : Queues F) (lowest_st : ℕ) (f s : AllStopSchedule)
        → (f.st ≡ lowest_st)
        → 1 ≤ lowest_st
        → All StopsLater queues
        → select_next d scheduler before position preceding queues lowest_st (some f) ≡ ok (some s)
        → (s.st ≤ lowest_st) × NoneSooner s.st queues
    unfolding select_next
    select_next-from [] lowest_st f s same set later h =
        let eq : f ≡ s = cc h in (rw (← eq) (omega arith), tt)
    select_next-from ((j, (v, vs)) ∷ queues) lowest_st f s same set later h =
        let step =
          select_next-step d scheduler before position preceding j v vs queues lowest_st (some f)
            (some s) h in
        let t = step.0 in
        let positive : 1 ≤ t.est = later.0 t.est step.1.6 in
        let at_st : t.st ≡ stopping_time d scheduler preceding v t.est = step.1.7 in
        let after = stopping_time_not_before preceding v t.est in
        elim step.2 [
          | inl (lower, rest) ↦
              let found = select_next-from queues t.st t s refl (omega arith) later.1 rest in
              let bound : s.st ≤ t.st = found.0 in
              (
                elim lower [ inl zero_st ↦ omega arith | inr less ↦ omega arith ],
                ((t, step.1, bound), found.1),
              )
          | inr (known, higher, rest) ↦
              let found = select_next-from queues lowest_st f s same set later.1 rest in
              let bound : s.st ≤ lowest_st = found.0 in (bound, ((t, step.1, omega arith), found.1))
        ]

    -- Where no vehicle can have stopped at the epoch, the schedule that is chosen for the next position has a
    -- stopping time that is not behind that of any first vehicle in a lane.
    pub select_next-NoneSooner :
        (queues : Queues F) (s : AllStopSchedule)
        → All StopsLater queues
        → select_next d scheduler before position preceding queues 0 none ≡ ok (some s)
        → NoneSooner s.st queues
    unfolding select_next
    select_next-NoneSooner [] s later h = tt
    select_next-NoneSooner ((j, (v, vs)) ∷ queues) s later h =
        let step =
          select_next-step d scheduler before position preceding j v vs queues 0 none (some s) h in
        let t = step.0 in
        let positive : 1 ≤ t.est = later.0 t.est step.1.6 in
        let at_st : t.st ≡ stopping_time d scheduler preceding v t.est = step.1.7 in
        let after = stopping_time_not_before preceding v t.est in
        elim step.2 [
          | inl (lower, rest) ↦
              let found = select_next-from queues t.st t s refl (omega arith) later.1 rest in
              ((t, step.1, found.0), found.1)
          | inr (known, higher, rest) ↦ elim (known refl) [ ]
        ]
