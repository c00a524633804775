-- ===== src/SignalOpt/Candidates.antt =====
-- streets_desired_phase_plan_generator.cpp: the candidates, each the fixed plan and one more green.
use carma_streets.Base.{
  ℕ, ◌==◌, List, [], ◌∷◌, ◌++◌, Bool, true, false, ◌&&◌, ◌||◌, not, if◌then◌else◌, elem, last, u8,
  lookup, has_key, Option, none, some, Result, ok, err, Outcome, done, thrown, ◌>>=◌, or_fault,
  empty_base_plan, unknown_group, no_lane_group, no_lane_mapping,
}
use carma_streets.Plan.{GreenTiming, DesiredPhasePlan, is_empty}
use carma_streets.Scheduler.{LaneletInfo, IntersectionInfo}
use carma_streets.Scheduler.Signalized.{group_of_links, group_or_zero}
use carma_streets.SignalOpt.{MovementGroup}
pub mod Disjoint

unfoldable pub has_signal_group : {F : Type 0} → ℕ → List (LaneletInfo F) → Bool
has_signal_group sg [] = false
has_signal_group sg (l ∷ ls) = l.signal_group_id == sg || has_signal_group sg ls

unfoldable pub verify_movement_group_list :
    {F : Type 0} → List (LaneletInfo F) → List MovementGroup → Result {0} Unit
verify_movement_group_list links [] = ok tt
verify_movement_group_list links (mg ∷ mgs) =
    let rest = verify_movement_group_list links mgs in
    if has_signal_group mg.first links && (mg.second == 0 || has_signal_group mg.second links)
    then rest
    else err unknown_group

unfoldable pub find_signal_group_for_entry_lane :
    {F : Type 0} → IntersectionInfo F → LaneletInfo F → Result ℕ
find_signal_group_for_entry_lane info lane = do
  found ← group_of_links none lane.connecting_lanelet_ids info.link_lanelets
  (if group_or_zero found == 0 then err no_lane_group else ok (group_or_zero found))

-- From signal groups to their entry lanes.
abbrev pub LaneMap : Type 0
LaneMap = List (ℕ × List ℕ)

unfoldable pub add_lane : ℕ → ℕ → LaneMap → LaneMap
add_lane sg lane [] = (sg, lane ∷ []) ∷ []
add_lane sg lane ((k, lanes) ∷ m) =
    if k == sg then (k, lanes ++ lane ∷ []) ∷ m else (k, lanes) ∷ add_lane sg lane m

-- The member is filled lane by lane, and keeps what it got before an exception.
unfoldable pub map_lanes :
    {F : Type 0} → IntersectionInfo F → List (LaneletInfo F) → LaneMap → Outcome LaneMap
map_lanes info [] m = done m
map_lanes info (l ∷ ls) m =
    let rest = λ (sg : ℕ). map_lanes info ls (add_lane sg l.id m) in
    elim (find_signal_group_for_entry_lane info l) [ ok sg ↦ rest sg | err x ↦ thrown x m ]

unfoldable pub create_signal_group_entry_lane_mapping :
    {F : Type 0} → IntersectionInfo F → Outcome LaneMap
create_signal_group_entry_lane_mapping info = map_lanes info info.entry_lanelets []

-- No signal group of the last fixed green is one of the movement group's.
unfoldable pub can_be_added : List ℕ → MovementGroup → Bool
can_be_added [] mg = true
can_be_added (sg ∷ sgs) mg =
    let rest = can_be_added sgs mg in
    if sg == mg.first || (not (mg.second == 0) && sg == mg.second) then false else rest

unfoldable pub groups_of : MovementGroup → List ℕ
groups_of mg = if mg.second == 0 then mg.first ∷ [] else mg.first ∷ mg.second ∷ []

module _ (tbd_start : ℕ) (green_ends : List (ℕ × ℕ)) (base : DesiredPhasePlan) where
  unfoldable pub candidate : MovementGroup → ℕ → DesiredPhasePlan
  candidate mg finish = record base {
    desired_phase_plan =
        base.desired_phase_plan
        ++ record { start_time = tbd_start; end_time = finish; signal_groups = groups_of mg } ∷ [];
  }

  -- One candidate for each of the lanes that has a queue.
  unfoldable pub lane_candidates : MovementGroup → List ℕ → List DesiredPhasePlan
  lane_candidates mg [] = []
  lane_candidates mg (lane ∷ lanes) = elim (lookup lane green_ends) [
    | none ↦ lane_candidates mg lanes
    | some finish ↦ candidate mg finish ∷ lane_candidates mg lanes
  ]

  -- `signal_group_entry_lane_mapping.at` throws for a group without lanes.
  unfoldable pub group_candidates : LaneMap → MovementGroup → Result (List DesiredPhasePlan)
  group_candidates m mg = do
    first ← or_fault (lookup mg.first m) no_lane_mapping
    (if mg.second == 0
        then ok (lane_candidates mg first)
        else (or_fault (lookup mg.second m) no_lane_mapping >>= λ second.
            ok (lane_candidates mg first ++ lane_candidates mg second)))

  unfoldable pub candidates_after :
      LaneMap → List ℕ → List MovementGroup → Result (List DesiredPhasePlan)
  candidates_after m fixed [] = ok []
  candidates_after m fixed (mg ∷ mgs) =
      let rest = candidates_after m fixed mgs in
      if can_be_added fixed mg
      then (do here ← group_candidates m mg; later ← rest; ok (here ++ later))
      else rest

  -- `back()` of the fixed plan.
  unfoldable pub candidate_list :
      LaneMap → List GreenTiming → List MovementGroup → Result (List DesiredPhasePlan)
  candidate_list m [] mgs = err empty_base_plan
  candidate_list m (g ∷ gs) mgs = candidates_after m (last g gs).signal_groups mgs

  -- The mapping is created when it is empty, and kept.
  unfoldable pub update_desired_phase_plan_list :
      {F : Type 0}
      → IntersectionInfo F
      → LaneMap
      → List MovementGroup
      → LaneMap × Result (List DesiredPhasePlan)
  update_desired_phase_plan_list info m mgs =
      if is_empty base.desired_phase_plan
      then (m, err empty_base_plan)
      else if is_empty m
      then (elim (create_signal_group_entry_lane_mapping info) [
        | thrown x partial ↦ (partial, err x)
        | done made ↦ (made, candidate_list made base.desired_phase_plan mgs)
      ])
      else (m, candidate_list m base.desired_phase_plan mgs)
