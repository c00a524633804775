-- ===== src/Tsc/Monitor.antt =====
-- tsc_client_service/src/monitor_desired_phase_plan.cpp: which future events the SPaT message gets in
-- the mode that follows desired phase plans. The SPaT is its list of movements here; `now` is the
-- reading of the clock during a call, and `next_phases` the value of PHASE_STATUS_GROUP_PHASE_NEXT.
-- The movements of `last_green_served` are kept by their signal groups, the only part that is read.
use carma_streets.Base.{
  ℕ, zero, suc, ◌+◌, ◌/◌, ◌%◌, ◌^◌, List, [], ◌∷◌, map, Bool, true, false, ◌&&◌, ◌||◌, not, ltb,
  leb, ◌==◌, if◌then◌else◌, length, last, add64, Option, none, some, Fault, Result, ok, err, ◌>>=◌,
  Outcome, done, thrown, within, null_pointer, no_states, no_previous_green, not_upcoming,
  too_many_next_phases, no_next_phases, bad_green_phases, no_green_phases,
}
use carma_streets.Plan.{GreenTiming, DesiredPhasePlan, TscConfiguration, is_empty}
use carma_streets.Spat.Time.{get_epoch_start_time}
use carma_streets.Spat.Movement.{
  MovementPhaseState, MovementEvent, MovementState, is_red, is_yellow, is_green,
}
use carma_streets.Spat.Projection.{update_spat_with_candidate_dpp}
use carma_streets.Base.{lookup}
use carma_streets.Tsc.Snmp.{get_signal_group_id}
use carma_streets.Tsc.State.{SignalGroupState, StateMap, TscState, empty_state, state_or_empty}
pub mod Prune
pub mod Served
pub mod Current

-- `desired_phase_plan_ptr` (null is none) and `last_green_served`
pub record Monitor : Type 0 where
  pub plan : Option DesiredPhasePlan
  pub last_green_served : List ℕ

-- `state_time_speed.front()`, undefined on an empty list; every movement holds its current event.
abbrev pub front_is : (MovementPhaseState → Bool) → List MovementEvent → Bool
front_is test [] = false
front_is test (e ∷ es) = test e.event_state

unfoldable pub front_start : ℕ → List MovementEvent → ℕ
front_start now [] = 0
front_start now (e ∷ es) = get_epoch_start_time now e.timing

unfoldable pub phases_in : (MovementPhaseState → Bool) → List MovementState → List MovementState
phases_in test [] = []
phases_in test (m ∷ ms) =
    if front_is test m.state_time_speed then m ∷ phases_in test ms else phases_in test ms

-- A group that the map does not hold is undefined behaviour in the source (`find(..)->second`).
abbrev pub state_of : StateMap → ℕ → SignalGroupState
state_of states sg = state_or_empty (lookup sg states)

unfoldable pub update_last_green_served : List MovementState → List ℕ → Result (List ℕ)
update_last_green_served [] served = err no_green_phases
update_last_green_served (m ∷ ms) [] = ok (map (λ n. n.signal_group) (m ∷ ms))
update_last_green_served (m ∷ ms) (g ∷ gs) =
    if not (m.signal_group == g) || not ((last m ms).signal_group == g)
    then ok (map (λ n. n.signal_group) (m ∷ ms))
    else ok (g ∷ gs)

unfoldable pub prune_expired_greens : ℕ → List GreenTiming → List GreenTiming
prune_expired_greens now [] = []
prune_expired_greens now (t ∷ ts) =
    if ltb now t.end_time then t ∷ ts else prune_expired_greens now ts

module _ (now : ℕ) (states : StateMap) where
  -- The latest end of yellow and red clearance among the movements in yellow.
  unfoldable pub yellow_end : ℕ → List MovementState → ℕ
  yellow_end latest [] = latest
  yellow_end latest (m ∷ ms) =
      let s = state_of states m.signal_group in
      let local =
        add64 (add64 (front_start now m.state_time_speed) s.yellow_duration) s.red_clearance in
      yellow_end (if ltb latest local then local else latest) ms

  -- The loop for the red clearance: the start time so far.
  unfoldable pub red_clearance_end : List ℕ → ℕ → List MovementState → Result ℕ
  red_clearance_end served start [] = ok start
  red_clearance_end [] start (m ∷ ms) = err no_previous_green
  red_clearance_end (g ∷ gs) start (m ∷ ms) =
      let local =
        add64 (front_start now m.state_time_speed) (state_of states m.signal_group).red_clearance in
      let found = red_clearance_end (g ∷ gs) local ms in
      let other = red_clearance_end (g ∷ gs) start ms in
      if (m.signal_group == g || m.signal_group == last g gs) && front_is is_red m.state_time_speed
      then (if ltb local now then err not_upcoming else found)
      else other

  unfoldable pub green_end : ℕ → ℕ → List ℕ → ℕ
  green_end start latest [] = latest
  green_end start latest (sg ∷ sgs) =
      let local = add64 start (state_of states sg).min_green in
      green_end start (if ltb latest local then local else latest) sgs

-- Bit `i` of the response stands for phase `i + 1`; the rounds left and the next `i`.
unfoldable pub next_groups : TscState → ℕ → ℕ → ℕ → Result (List ℕ)
next_groups tsc next_phases zero i = ok []
next_groups tsc next_phases (suc left) i =
    let later = next_groups tsc next_phases left (i + 1) in
    if (next_phases / 2 ^ i) % 2 == 1
    then (do sg ← get_signal_group_id tsc.vehicle_phase_group (i + 1); sgs ← later; ok (sg ∷ sgs))
    else later

-- `update_last_green_served` for the movements that are present, if there are any.
unfoldable pub served_after : List MovementState → List ℕ → List ℕ
served_after [] served = served
served_after (m ∷ ms) served = elim (update_last_green_served (m ∷ ms) served) [
  | ok new ↦ new
  | err x ↦ served
]

module _ (now : ℕ) (garbage : MovementPhaseState) (tsc : TscState) (next_phases : ℕ) where
  unfoldable pub upcoming_start : List ℕ → List MovementState → Result ℕ
  upcoming_start served ms =
      if is_empty (phases_in is_yellow ms)
      then red_clearance_end now tsc.states served 0 ms
      else ok (yellow_end now tsc.states 0 (phases_in is_yellow ms))

  -- The fixed green: its groups are those that the controller has committed to be next.
  unfoldable pub fixed_green : ℕ → Result GreenTiming
  fixed_green start = next_groups tsc next_phases 8 0 >>= λ groups.
      if ltb 2 (length groups)
      then err too_many_next_phases
      else if is_empty groups
      then err no_next_phases
      else ok (record {
        start_time = start;
        end_time = green_end now tsc.states start 0 groups;
        signal_groups = groups;
      })

  unfoldable pub upcoming_green : List ℕ → List MovementState → Result GreenTiming
  upcoming_green served ms = do start ← upcoming_start served ms; fixed_green start

  -- A SPaT updated with one green.
  unfoldable pub update_with_green : GreenTiming → List MovementState → Outcome (List MovementState)
  update_with_green t ms =
      update_spat_with_candidate_dpp now tsc.config garbage
        (record { timestamp = now; desired_phase_plan = t ∷ [] }) ms

  unfoldable pub fix_upcoming_green :
      Monitor → List MovementState → Outcome (Monitor × List MovementState)
  fix_upcoming_green m ms =
      let served = served_after (phases_in is_yellow ms) m.last_green_served in
      let m' = record m { last_green_served = served } in
      elim (upcoming_green served ms) [
        | ok t ↦ within (λ out. (m', out)) (update_with_green t ms)
        | err x ↦ thrown x (m', ms)
      ]

  unfoldable pub current_green : List MovementState → Result GreenTiming
  current_green [] = err bad_green_phases
  current_green (m ∷ ms) =
      if ltb 2 (length (m ∷ ms))
      then err bad_green_phases
      else ok (record {
        start_time = front_start now m.state_time_speed;
        end_time =
            add64 (front_start now m.state_time_speed)
              (state_of tsc.states m.signal_group).min_green;
        signal_groups = map (λ n. n.signal_group) (m ∷ ms);
      })

  unfoldable pub fix_upcoming_yell_red :
      List MovementState → List MovementState → Outcome (List MovementState)
  fix_upcoming_yell_red greens ms = elim (current_green greens) [
    | ok t ↦ update_with_green t ms
    | err x ↦ thrown x ms
  ]

  -- With no plan: after the green that is shown, or else after the green that comes next.
  unfoldable pub without_plan :
      Monitor → List MovementState → Outcome (Monitor × List MovementState)
  without_plan m ms =
      let greens = phases_in is_green ms in
      if is_empty greens
      then fix_upcoming_green m ms
      else within
          (λ out. (record m { last_green_served = served_after greens m.last_green_served }, out))
          (fix_upcoming_yell_red greens ms)

  unfoldable pub with_plan :
      Monitor → DesiredPhasePlan → List MovementState → Outcome (Monitor × List MovementState)
  with_plan m plan ms =
      let pruned = record plan {
        desired_phase_plan = prune_expired_greens now plan.desired_phase_plan;
      } in
      let m' = record m { plan = some pruned } in
      if is_empty pruned.desired_phase_plan
      then without_plan m' ms
      else within (λ out. (m', out))
          (update_spat_with_candidate_dpp now tsc.config garbage pruned ms)

  by_plan :
      Monitor
      → Option DesiredPhasePlan
      → List MovementState
      → Outcome (Monitor × List MovementState)
  by_plan m none ms = without_plan m ms
  by_plan m (some plan) ms =
      if is_empty plan.desired_phase_plan then without_plan m ms else with_plan m plan ms

  unfoldable pub update_spat_future_movement_events :
      Monitor → List MovementState → Outcome (Monitor × List MovementState)
  unfolding by_plan
  update_spat_future_movement_events m ms =
      if is_empty tsc.config
      then thrown null_pointer (m, ms)
      else if is_empty ms
      then thrown no_states (m, ms)
      else by_plan m m.plan ms
