-- ===== src/SignalOpt/Generator/Runs.antt =====
-- streets_desired_phase_plan_generator.cpp, generate_desire_phase_plan_list: what stands in the list.
use carma_streets.Base.{
  ℕ, ◌≡◌, ◌≤◌, refl, ltb, List, [], ◌∷◌, last, length, All, some, ok, err, Bool-cases, Result-cases,
  Outcome-cases, inl, inr, arith,
}
use carma_streets.Double.{Double}
use carma_streets.Plan.{GreenTiming, DesiredPhasePlan, is_empty}
use carma_streets.Scheduler.{IntersectionInfo, VehicleSchedule}
use carma_streets.SignalOpt.{MovementGroup}
use carma_streets.SignalOpt.BasePlan.{convert_spat_to_dpp, find_tbd_start_time}
use carma_streets.SignalOpt.Queues.{get_green_end_per_entry_lane}
use carma_streets.SignalOpt.Candidates.{
  LaneMap, create_signal_group_entry_lane_mapping, update_desired_phase_plan_list,
  verify_movement_group_list,
}
use carma_streets.SignalOpt.Candidates.Disjoint.{Extends, candidate_list-Extends}
use carma_streets.SignalOpt.Generator.{
  Generator, Request, configured, scheduler_for, get_schedule_plan, queues, candidates_for,
  extend_base, generate_from, generate_desire_phase_plan_list,
}

abbrev plan_of : ℕ → GreenTiming → List GreenTiming → DesiredPhasePlan
plan_of timestamp first greens = record {
  timestamp = timestamp;
  desired_phase_plan = first ∷ greens;
}

update-Extends :
    {F : Type 0} (tbd_start : ℕ) (ends : List (ℕ × ℕ)) (timestamp : ℕ) (info : IntersectionInfo F)
    (m : LaneMap) (mgs : List MovementGroup) (out : List DesiredPhasePlan) (first : GreenTiming)
    (greens : List GreenTiming)
    → (update_desired_phase_plan_list tbd_start ends (plan_of timestamp first greens) info m mgs).1
      ≡ ok out
    → All
        (Extends tbd_start ends (plan_of timestamp first greens) (last first greens).signal_groups)
        out
unfolding update_desired_phase_plan_list
update-Extends tbd_start ends timestamp info m mgs out first greens h =
    elim (Bool-cases (is_empty m)) [
      | inr present ↦
          candidate_list-Extends tbd_start ends (plan_of timestamp first greens) m first greens mgs
            out (rw (present, update_desired_phase_plan_list) at h)
      | inl absent ↦ elim (Outcome-cases (create_signal_group_entry_lane_mapping info)) [
        | inr (x, partial, bad) ↦
            let no_case : err x ≡ ok out = rw (absent, bad, update_desired_phase_plan_list) at h in
            cc no_case
        | inl (made, known) ↦
            candidate_list-Extends tbd_start ends (plan_of timestamp first greens) made first greens
              mgs out (rw (absent, known, update_desired_phase_plan_list) at h)
      ]
    ]

module _ {F : Type 0} (d : Double F) (system_now now : ℕ) where
  -- A list that is not empty extends the plan that the SPaT message fixes, of no more greens than the
  -- configured number, from the start of the time that is to be decided.
  abbrev pub Proposes : Generator F → Request F → List DesiredPhasePlan → Type 0
  Proposes g r out =
      (base : DesiredPhasePlan) × (first : GreenTiming) × (greens : List GreenTiming)
      × (tbd_start : ℕ) × (ends : List (ℕ × ℕ)) × (convert_spat_to_dpp system_now now r.states
            r.groups
          ≡ ok base)
      × (base.desired_phase_plan ≡ first ∷ greens)
      × (length (first ∷ greens) ≤ (configured d g).config.desired_future_move_group_count)
      × (find_tbd_start_time r.tsc_config (first ∷ greens) ≡ ok tbd_start)
      × All (Extends tbd_start ends base (last first greens).signal_groups) out

  candidates_for-Extends :
      (g : Generator F) (r : Request F) (timestamp : ℕ) (tbd_start : ℕ)
      (lanes : List (ℕ × List VehicleSchedule)) (p : DesiredPhasePlan) (ps : List DesiredPhasePlan)
      (first : GreenTiming) (greens : List GreenTiming)
      → (candidates_for d system_now now g r (plan_of timestamp first greens) tbd_start lanes).1
        ≡ ok (p ∷ ps)
      → (ends : List (ℕ × ℕ)) × All
          (Extends tbd_start ends
            (plan_of timestamp first greens)
            (last first greens).signal_groups)
          (p ∷ ps)
  unfolding candidates_for
  candidates_for-Extends g r timestamp tbd_start lanes p ps first greens h =
      let ends = get_green_end_per_entry_lane d g.config tbd_start lanes in
      elim (Bool-cases (is_empty ends)) [
        | inl none_left ↦
            let bad : ok [] ≡ ok (p ∷ ps) = rw (none_left, candidates_for) at h in cc bad
        | inr some_left ↦ (
          ends,
          update-Extends tbd_start ends timestamp r.intersection_info
              g.signal_group_entry_lane_mapping r.groups (p ∷ ps) first greens
              (rw (some_left, candidates_for) at h),
        )
      ]

  extend_base-Extends :
      (g : Generator F) (r : Request F) (timestamp : ℕ) (tbd_start : ℕ) (p : DesiredPhasePlan)
      (ps : List DesiredPhasePlan) (first : GreenTiming) (greens : List GreenTiming)
      → (extend_base d system_now now g r (plan_of timestamp first greens) tbd_start).1
        ≡ ok (p ∷ ps)
      → (ends : List (ℕ × ℕ)) × All
          (Extends tbd_start ends
            (plan_of timestamp first greens)
            (last first greens).signal_groups)
          (p ∷ ps)
  unfolding extend_base
  extend_base-Extends g r timestamp tbd_start p ps first greens h =
      let scheduler = scheduler_for g r in
      let ready = record g { scheduler = some scheduler } in
      let schedules = get_schedule_plan d system_now now scheduler r.vehicles in
      elim (Bool-cases (is_empty r.vehicles)) [
        | inl none_there ↦
            let bad : ok [] ≡ ok (p ∷ ps) = rw (none_there, extend_base) at h in cc bad
        | inr there ↦ elim (Result-cases (queues d system_now now ready r tbd_start schedules)) [
          | inr (x, failed) ↦
              let bad : err x ≡ ok (p ∷ ps) = rw (there, failed, extend_base) at h in cc bad
          | inl (lanes, known) ↦
              candidates_for-Extends ready r timestamp tbd_start lanes p ps first greens
                (rw (there, known, extend_base) at h)
        ]
      ]

  generate_from-Extends :
      (g : Generator F) (r : Request F) (timestamp : ℕ) (plan : List GreenTiming)
      (p : DesiredPhasePlan) (ps : List DesiredPhasePlan)
      → (generate_from d system_now now g r
          (record { timestamp = timestamp; desired_phase_plan = plan })).1
        ≡ ok (p ∷ ps)
      → (first : GreenTiming) × (greens : List GreenTiming) × (tbd_start : ℕ) × (ends : List
          (ℕ × ℕ))
        × (plan ≡ first ∷ greens)
        × (length (first ∷ greens) ≤ g.config.desired_future_move_group_count)
        × (find_tbd_start_time r.tsc_config (first ∷ greens) ≡ ok tbd_start)
        × All
            (Extends tbd_start ends
              (record { timestamp = timestamp; desired_phase_plan = plan })
              (last first greens).signal_groups)
            (p ∷ ps)
  unfolding generate_from
  generate_from-Extends g r timestamp [] p ps h = cc h
  generate_from-Extends g r timestamp (first ∷ greens) p ps h =
      elim (Bool-cases (ltb g.config.desired_future_move_group_count (length (first ∷ greens)))) [
        | inl many ↦ let bad : ok [] ≡ ok (p ∷ ps) = rw (many, generate_from) at h in cc bad
        | inr few ↦ elim (Result-cases (find_tbd_start_time r.tsc_config (first ∷ greens))) [
          | inr (x, failed) ↦
              let bad : err x ≡ ok (p ∷ ps) = rw (few, failed, generate_from) at h in cc bad
          | inl (tbd_start, start) ↦
              let rest =
                extend_base-Extends g r timestamp tbd_start p ps first greens
                  (rw (few, start, generate_from) at h) in
              let bounded : length (first ∷ greens) ≤ g.config.desired_future_move_group_count =
                ground arith in
              (first, greens, tbd_start, rest.0, refl, bounded, start, rest.1)
        ]
      ]

  -- When the generator returns a list that is not empty, the SPaT message fixes a plan of at least one
  -- green and at most the configured number, the time that is to be decided has a start, and every plan
  -- of the list is the fixed plan with one green more, which starts at that start and shares no signal
  -- group with the last fixed green.
  pub generate-Proposes :
      (g : Generator F) (r : Request F) (p : DesiredPhasePlan) (ps : List DesiredPhasePlan)
      → (generate_desire_phase_plan_list d system_now now g r).1 ≡ ok (p ∷ ps)
      → Proposes g r (p ∷ ps)
  unfolding generate_desire_phase_plan_list
  generate-Proposes g r p ps h =
      elim (Result-cases (verify_movement_group_list r.intersection_info.link_lanelets r.groups)) [
        | inr (x, failed) ↦
            let bad : err x ≡ ok (p ∷ ps) = rw (failed, generate_desire_phase_plan_list) at h in
            cc bad
        | inl (u, verified) ↦
            elim (Result-cases (convert_spat_to_dpp system_now now r.states r.groups)) [
              | inr (x, failed) ↦
                  let bad : err x ≡ ok (p ∷ ps) =
                    rw (verified, failed, generate_desire_phase_plan_list) at h in
                  cc bad
              | inl (base, known) ↦
                  let made =
                    generate_from-Extends (configured d g) r base.timestamp base.desired_phase_plan
                      p ps (rw (verified, known, generate_desire_phase_plan_list) at h) in
                  (base, made.0, made.1, made.2, made.3, known, made.4, made.5, made.6, made.7)
            ]
      ]
