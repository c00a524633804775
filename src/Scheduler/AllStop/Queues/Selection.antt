-- ===== src/Scheduler/AllStop/Queues/Selection.antt =====
-- all_stop_vehicle_scheduler.cpp, schedule_evs: the choice among the first vehicles of the lanes.
use carma_streets.Base.{
  ℕ, ◌==◌, ◌≤◌, ◌<◌, ◌≡◌, ◌≢◌, refl, sym, ◌⊎◌, inl, inr, ltb, max, List, [], ◌∷◌, Any, false, ◌||◌,
  Option, none, some, Option-cases, Bool-cases, ok, err, Result-cases, arith,
}
use carma_streets.Double.{Double}
use carma_streets.Vehicles.{Vehicle}
use carma_streets.Scheduler.{LaneletInfo, lanelet_from, get_link_lanelet_info}
use carma_streets.Scheduler.AllStop.{
  AllStopSchedule, AllStopScheduler, get_latest_conflicting, estimate_earliest_time_to_stop_bar,
}
use carma_streets.Scheduler.AllStop.Conflicts.{
  ClearOf, NoConflict, ClearOf-later, NoConflict-ClearOf, get_latest_conflicting-some,
  get_latest_conflicting-none, link_of,
}
use carma_streets.Scheduler.AllStop.Queues.{
  Queues, pop_vehicle, stopping_time, estimate_entering_time_for_ev, entering_schedule, select_next,
}
use carma_streets.Scheduler.AllStop.Queues.Lanes.{IsSorted, Popped, pop_vehicle-Popped}

module _ {F : Type 0} (d : Double F) (scheduler : AllStopScheduler F) where
  open scheduler use {intersection_info, entering_time_buffer}

  -- The schedule of a vehicle that is to enter: it stops when it can, behind the one before it in the
  -- lane, and enters when those of the conflicting links have departed.
  abbrev pub Entered :
      List AllStopSchedule → ℕ → List (ℕ × AllStopSchedule) → Vehicle F → AllStopSchedule → Type 0
  Entered before position preceding v s =
      (link : LaneletInfo F) × (get_link_lanelet_info intersection_info v ≡ ok link)
      × (s.v_id ≡ v.id)
      × (s.entry_lane ≡ v.entry_lane_id)
      × (s.link_id ≡ v.link_id)
      × (s.dp ≡ position)
      × (estimate_earliest_time_to_stop_bar d intersection_info v ≡ ok s.est)
      × (s.st ≡ stopping_time d scheduler preceding v s.est)
      × (s.access ≡ false)
      × (s.st ≤ s.et)
      × ClearOf link before s.et

  pub Entered-Clear :
      (before : List AllStopSchedule) (position : ℕ) (preceding : List (ℕ × AllStopSchedule))
      (v : Vehicle F) (s : AllStopSchedule)
      → Entered before position preceding v s
      → (s.dp ≡ position)
        × ((link : LaneletInfo F) × (lanelet_from none s.link_id intersection_info.link_lanelets
              ≡ some link)
            × ClearOf link before s.et
            × ((s.access ≡ false) ⊎ NoConflict link before))
  Entered-Clear before position preceding v s h =
      let at_link : s.link_id ≡ v.link_id = h.4 in
      (h.5, (h.0, rw at_link (link_of intersection_info v h.0 h.1), h.10, inl h.8))

  estimate_entering_time_for_ev-ClearOf :
      (before : List AllStopSchedule) (link : LaneletInfo F) (st : ℕ)
      → (st ≤ estimate_entering_time_for_ev d scheduler before link st)
        × ClearOf link before (estimate_entering_time_for_ev d scheduler before link st)
  unfolding estimate_entering_time_for_ev
  estimate_entering_time_for_ev-ClearOf before link st =
      elim (Option-cases (get_latest_conflicting link before)) [
        | inl clear ↦
            rw (clear, estimate_entering_time_for_ev)
              (
                omega arith,
                NoConflict-ClearOf link before st (get_latest_conflicting-none link before clear),
              )
        | inr (c, conflict) ↦
            rw (conflict, estimate_entering_time_for_ev)
              (
                omega arith,
                ClearOf-later link before c.dt (max c.dt st) (omega arith)
                    (get_latest_conflicting-some link before c conflict),
              )
      ]

  entering_schedule-Entered :
      (before : List AllStopSchedule) (position : ℕ) (preceding : List (ℕ × AllStopSchedule))
      (v : Vehicle F) (link : LaneletInfo F) (est : ℕ)
      → get_link_lanelet_info intersection_info v ≡ ok link
      → estimate_earliest_time_to_stop_bar d intersection_info v ≡ ok est
      → Entered before position preceding v (
          entering_schedule d scheduler before position v link est
            (stopping_time d scheduler preceding v est))
  unfolding entering_schedule
  entering_schedule-Entered before position preceding v link est found known =
      let enters =
        estimate_entering_time_for_ev-ClearOf before link
          (stopping_time d scheduler preceding v est) in
      (link, found, refl, refl, refl, refl, known, refl, refl, enters.0, enters.1)

  -- One vehicle further: it is known, and it takes the place of the one found so far or does not.
  pub select_next-step :
      (before : List AllStopSchedule) (position : ℕ) (preceding : List (ℕ × AllStopSchedule))
      (lane : ℕ) (v : Vehicle F) (vs : List (Vehicle F)) (queues : Queues F) (lowest_st : ℕ)
      (found o : Option AllStopSchedule)
      → select_next d scheduler before position preceding ((lane, (v, vs)) ∷ queues) lowest_st found
        ≡ ok o
      → (s : AllStopSchedule) × Entered before position preceding v s
        × ((((lowest_st ≡ 0) ⊎ (s.st < lowest_st))
              × (select_next d scheduler before position preceding queues s.st (some s) ≡ ok o))
            ⊎ ((lowest_st ≢ 0)
                × (lowest_st ≤ s.st)
                × (select_next d scheduler before position preceding queues lowest_st found
                    ≡ ok o)))
  unfolding select_next entering_schedule
  select_next-step before position preceding lane v vs queues lowest_st found o h =
      elim (Result-cases (get_link_lanelet_info intersection_info v)) [
        | inr (x, missing) ↦ let bad : err x ≡ ok o = rw (missing, select_next) at h in cc bad
        | inl (link, at_link) ↦
            elim (Result-cases (estimate_earliest_time_to_stop_bar d intersection_info v)) [
              | inr (x, missing) ↦
                  let bad : err x ≡ ok o = rw (at_link, missing, select_next) at h in cc bad
              | inl (est, known) ↦
                  let st = stopping_time d scheduler preceding v est in
                  let mine = entering_schedule d scheduler before position v link est st in
                  let entered =
                    entering_schedule-Entered before position preceding v link est at_link known in
                  elim (Bool-cases ((lowest_st == 0) || ltb st lowest_st)) [
                    | inr higher ↦ (
                      mine,
                      entered,
                      inr (
                        ground arith,
                        ground arith,
                        rw (at_link, known, higher, select_next) at h,
                      ),
                    )
                    | inl lower ↦ (
                      mine,
                      entered,
                      inl (ground arith, rw (at_link, known, lower, select_next) at h),
                    )
                  ]
            ]
      ]

  select_next-Entered :
      (before : List AllStopSchedule) (position : ℕ) (preceding : List (ℕ × AllStopSchedule))
      (queues : Queues F) (lowest_st : ℕ) (found : Option AllStopSchedule) (s : AllStopSchedule)
      → select_next d scheduler before position preceding queues lowest_st found ≡ ok (some s)
      → (found ≡ some s) ⊎ Any (λ q. Entered before position preceding q.1.0 s) queues
  unfolding select_next
  select_next-Entered before position preceding [] lowest_st found s h =
      let eq : found ≡ some s = cc h in inl eq
  select_next-Entered before position preceding ((j, (v, vs)) ∷ queues) lowest_st found s h =
      let step =
        select_next-step before position preceding j v vs queues lowest_st found (some s) h in
      elim step.2 [
        | inr (set, lower, later) ↦
            elim (select_next-Entered before position preceding queues lowest_st found s later) [
              | inl eq ↦ inl eq
              | inr behind ↦ inr (inr behind)
            ]
        | inl (lower, later) ↦
            elim (select_next-Entered before position preceding queues step.0.st (some step.0) s
              later) [
                | inl eq ↦ let same : step.0 ≡ s = cc eq in inr (inl (rw same at step.1))
                | inr behind ↦ inr (inr behind)
              ]
      ]

  select_next-some :
      (before : List AllStopSchedule) (position : ℕ) (preceding : List (ℕ × AllStopSchedule))
      (queues : Queues F) (lowest_st : ℕ) (s : AllStopSchedule)
      → select_next d scheduler before position preceding queues lowest_st (some s) ≢ ok none
  unfolding select_next
  select_next-some before position preceding [] lowest_st s h = cc h
  select_next-some before position preceding ((j, (v, vs)) ∷ queues) lowest_st s h =
      let step =
        select_next-step before position preceding j v vs queues lowest_st (some s) none h in
      elim step.2 [
        | inr (set, lower, later) ↦
            select_next-some before position preceding queues lowest_st s later
        | inl (lower, later) ↦
            select_next-some before position preceding queues step.0.st step.0 later
      ]

  -- Of the first vehicles one is chosen, if there is one.
  pub select_next-none :
      (before : List AllStopSchedule) (position : ℕ) (preceding : List (ℕ × AllStopSchedule))
      (queues : Queues F)
      → select_next d scheduler before position preceding queues 0 none ≡ ok none
      → queues ≡ []
  select_next-none before position preceding [] h = refl
  select_next-none before position preceding ((j, (v, vs)) ∷ queues) h =
      let step = select_next-step before position preceding j v vs queues 0 none none h in
      elim step.2 [
        | inr (set, lower, later) ↦ elim (set refl) [ ]
        | inl (lower, later) ↦
            elim (select_next-some before position preceding queues step.0.st step.0 later) [ ]
      ]

  pub pop_chosen :
      (before : List AllStopSchedule) (position : ℕ) (preceding : List (ℕ × AllStopSchedule))
      (queues : Queues F) (s : AllStopSchedule)
      → IsSorted queues
      → select_next d scheduler before position preceding queues 0 none ≡ ok (some s)
      → (v : Vehicle F) × Entered before position preceding v s
        × Popped queues v (pop_vehicle s.entry_lane queues)
  pop_chosen before position preceding queues s sorted h =
      elim (select_next-Entered before position preceding queues 0 none s h) [
        | inl bad ↦ cc bad
        | inr chosen ↦
            pop_vehicle-Popped (λ v. Entered before position preceding v s) s.entry_lane queues
              sorted (own_lane queues chosen)
      ]
    where
      own_lane :
          (qs : Queues F)
          → Any (λ q. Entered before position preceding q.1.0 s) qs
          → Any
              (λ q.
                (q.1.0.entry_lane_id ≡ s.entry_lane) × Entered before position preceding q.1.0 s)
              qs
      own_lane [] h = h
      own_lane (q ∷ qs) (inl h) = inl (sym h.3, h)
      own_lane (q ∷ qs) (inr h) = inr (own_lane qs h)
