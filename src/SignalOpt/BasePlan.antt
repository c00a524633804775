-- ===== src/SignalOpt/BasePlan.antt =====
-- streets_desired_phase_plan_generator.cpp: the plan that the SPaT message already fixes, and where
-- the time that is to be decided starts. `now` is the reading of the clock of the time marks.
use carma_streets.Base.{
  ℕ, ◌+◌, ◌==◌, ltb, max, List, [], ◌∷◌, ◌++◌, Bool, ◌&&◌, ◌||◌, not, if◌then◌else◌, last, add64,
  Result, ok, err, ◌>>=◌, map_result, overlapping_greens, empty_movement, empty_base_plan,
  no_configuration, no_clearance,
}
use carma_streets.Plan.{
  GreenTiming, DesiredPhasePlan, TscConfiguration, get_signal_group_configuration_by_sg, is_empty,
}
use carma_streets.Spat.Time.{get_epoch_start_time, get_epoch_min_end_time}
use carma_streets.Spat.Movement.{MovementEvent, MovementState, is_green}
use carma_streets.Spat.Intersection.{get_movement}
use carma_streets.SignalOpt.{MovementGroup}
pub mod Order
pub mod Start

unfoldable pub partly_overlaps : GreenTiming → GreenTiming → Bool
partly_overlaps a b =
    (ltb a.start_time b.start_time && ltb b.start_time a.end_time)
    || (ltb a.start_time b.end_time && ltb b.end_time a.end_time)

unfoldable pub green_of : ℕ → List ℕ → MovementEvent → GreenTiming
green_of now groups e = record {
  start_time = get_epoch_start_time now e.timing;
  end_time = get_epoch_min_end_time now e.timing;
  signal_groups = groups;
}

unfoldable pub same_times : GreenTiming → GreenTiming → Bool
same_times a b = a.start_time == b.start_time && a.end_time == b.end_time

-- The loop over the second movement's events: the first movement's green with both groups, if the
-- second movement has a green at the same times.
unfoldable pub paired_green : ℕ → ℕ → GreenTiming → List MovementEvent → Result (List GreenTiming)
paired_green now second g [] = ok []
paired_green now second g (e ∷ es) =
    let rest = paired_green now second g es in
    let other = green_of now [] e in
    if is_green e.event_state && partly_overlaps other g
    then err overlapping_greens
    else if is_green e.event_state && same_times other g
    then ok (record g { signal_groups = g.signal_groups ++ second ∷ [] } ∷ [])
    else if ltb g.start_time other.start_time
    then ok []
    else rest

-- The loop over the first movement's events.
unfoldable pub single_greens : ℕ → MovementState → List MovementEvent → List GreenTiming
single_greens now m [] = []
single_greens now m (e ∷ es) =
    if is_green e.event_state
    then green_of now (m.signal_group ∷ []) e ∷ single_greens now m es
    else single_greens now m es

unfoldable pub paired_greens :
    ℕ → MovementState → MovementState → List MovementEvent → Result (List GreenTiming)
paired_greens now m second [] = ok []
paired_greens now m second (e ∷ es) =
    let rest = paired_greens now m second es in
    if is_green e.event_state
    then (do
      here ←
          paired_green now second.signal_group (green_of now (m.signal_group ∷ []) e)
            second.state_time_speed
      later ← rest
      ok (here ++ later))
    else rest

-- `get_movement`, and the exception for a movement without events.
unfoldable pub movement_with_events : ℕ → List MovementState → Result MovementState
movement_with_events sg states = do
  m ← get_movement sg states
  (if is_empty m.state_time_speed then err empty_movement else ok m)

unfoldable pub group_greens : ℕ → List MovementState → MovementGroup → Result (List GreenTiming)
group_greens now states mg = do
  first ← movement_with_events mg.first states
  (if mg.second == 0
      then ok (single_greens now first first.state_time_speed)
      else (movement_with_events mg.second states >>= λ second.
          paired_greens now first second first.state_time_speed))

unfoldable pub all_group_greens :
    ℕ → List MovementState → List MovementGroup → Result (List GreenTiming)
all_group_greens now states [] = ok []
all_group_greens now states (mg ∷ mgs) = do
  here ← group_greens now states mg
  later ← all_group_greens now states mgs
  ok (here ++ later)

-- Before the first green that starts after its end, otherwise at the end of the plan.
unfoldable pub insert_green : GreenTiming → List GreenTiming → Result (List GreenTiming)
insert_green g [] = ok (g ∷ [])
insert_green g (p ∷ ps) =
    let rest = insert_green g ps in
    if partly_overlaps g p
    then err overlapping_greens
    else if ltb g.end_time p.start_time
    then ok (g ∷ p ∷ ps)
    else map_result (λ out. p ∷ out) rest

unfoldable pub order_greens : List GreenTiming → List GreenTiming → Result (List GreenTiming)
order_greens plan [] = ok plan
order_greens plan (g ∷ gs) = insert_green g plan >>= λ out. order_greens out gs

-- `system_now` is the reading of the system's clock.
unfoldable pub convert_spat_to_dpp :
    ℕ → ℕ → List MovementState → List MovementGroup → Result DesiredPhasePlan
convert_spat_to_dpp system_now now states groups = do
  greens ← all_group_greens now states groups
  plan ← order_greens [] greens
  ok (record { timestamp = system_now; desired_phase_plan = plan })

-- The greatest yellow change and red clearance so far, over the signal groups of a green.
unfoldable pub clearance_from : ℕ → TscConfiguration → List ℕ → Result ℕ
clearance_from found tsc [] = ok found
clearance_from found tsc (sg ∷ sgs) =
    let c = get_signal_group_configuration_by_sg tsc sg in
    let rest = clearance_from (max found (c.yellow_change_duration + c.red_clearance)) tsc sgs in
    if sg == c.signal_group_id then rest else err no_configuration

-- A plan without greens is refused; `last` is `back()`.
unfoldable pub find_tbd_start_time : TscConfiguration → List GreenTiming → Result ℕ
find_tbd_start_time tsc [] = err empty_base_plan
find_tbd_start_time tsc (g ∷ gs) = do
  clearance ← clearance_from 0 tsc (last g gs).signal_groups
  (if clearance == 0 then err no_clearance else ok (add64 (last g gs).end_time clearance))
