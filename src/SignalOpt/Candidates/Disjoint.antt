-- ===== src/SignalOpt/Candidates/Disjoint.antt =====
-- streets_desired_phase_plan_generator.cpp: what a candidate adds to the fixed plan, and that the
-- controller's service accepts it.
use carma_streets.Base.{
  ℕ, ◌≡◌, refl, ap, ◌==◌, List, [], ◌∷◌, ◌++◌, map, true, false, last, length, lookup, All,
  All-append, All-map, some, Option-cases, Bool-cases, ok, err, Result-cases, IntMap, done, inl,
  inr, arith, no_lane_mapping,
}
use carma_streets.Plan.{GreenTiming, DesiredPhasePlan}
use carma_streets.SnmpCmd.Commands.{SnmpCmd}
use carma_streets.Tsc.Control.{any_repeated, update_tsc_control_queue}
use carma_streets.Tsc.Control.Queue.{Mapped, update_queue_total}
use carma_streets.SignalOpt.{MovementGroup}
use carma_streets.SignalOpt.Candidates.{
  LaneMap, can_be_added, groups_of, candidate, lane_candidates, group_candidates, candidates_after,
  candidate_list,
}

can_be_added-any_repeated :
    (fixed : List ℕ) (mg : MovementGroup)
    → can_be_added fixed mg ≡ true
    → any_repeated fixed (groups_of mg) ≡ false
unfolding can_be_added any_repeated groups_of
can_be_added-any_repeated [] mg h = refl
can_be_added-any_repeated (sg ∷ sgs) mg h = ground (arith, can_be_added-any_repeated sgs mg)

module _ (tbd_start : ℕ) (green_ends : List (ℕ × ℕ)) (base : DesiredPhasePlan) where
  -- The fixed plan and a green of one movement group, which shares no signal group with the last fixed
  -- green, from the start of the time that is to be decided to the end for the queue of a lane.
  abbrev pub Extends : List ℕ → DesiredPhasePlan → Type 0
  Extends fixed plan =
      (mg : MovementGroup) × (lane : ℕ) × (finish : ℕ) × (plan
        ≡ candidate tbd_start green_ends base mg finish)
      × (any_repeated fixed (groups_of mg) ≡ false)
      × (lookup lane green_ends ≡ some finish)

  module _ (P : MovementGroup → Type 0) where
    -- The same, and of the movement group more is known.
    abbrev ExtendsBy : List ℕ → DesiredPhasePlan → Type 0
    ExtendsBy fixed plan = (e : Extends fixed plan) × P e.0

    lane_candidates-ExtendsBy :
        (fixed : List ℕ) (mg : MovementGroup) (lanes : List ℕ)
        → any_repeated fixed (groups_of mg) ≡ false
        → P mg
        → All (ExtendsBy fixed) (lane_candidates tbd_start green_ends base mg lanes)
    unfolding lane_candidates
    lane_candidates-ExtendsBy fixed mg [] h p = tt
    lane_candidates-ExtendsBy fixed mg (lane ∷ lanes) h p =
        elim (Option-cases (lookup lane green_ends)) [
          | inl missing ↦
              rw (missing, lane_candidates) (lane_candidates-ExtendsBy fixed mg lanes h p)
          | inr (finish, found) ↦
              rw (found, lane_candidates)
                (
                  ((mg, lane, finish, refl, h, found), p),
                  lane_candidates-ExtendsBy fixed mg lanes h p,
                )
        ]

    group_candidates-ExtendsBy :
        (fixed : List ℕ) (m : LaneMap) (mg : MovementGroup) (out : List DesiredPhasePlan)
        → any_repeated fixed (groups_of mg) ≡ false
        → P mg
        → group_candidates tbd_start green_ends base m mg ≡ ok out
        → All (ExtendsBy fixed) out
    unfolding group_candidates
    group_candidates-ExtendsBy fixed m mg out h p made = elim (Option-cases (lookup mg.first m)) [
      | inl missing ↦
          let no : err no_lane_mapping ≡ ok out = rw (missing, group_candidates) at made in cc no
      | inr (first, found) ↦
          let all = lane_candidates-ExtendsBy fixed mg first h p in
          elim (Bool-cases (mg.second == 0)) [
            | inl alone ↦
                let yes : ok (lane_candidates tbd_start green_ends base mg first) ≡ ok out =
                  rw (found, alone, group_candidates) at made in
                let eq : lane_candidates tbd_start green_ends base mg first ≡ out = cc yes in
                rw (← eq) all
            | inr paired ↦ elim (Option-cases (lookup mg.second m)) [
              | inl missing ↦
                  let no : err no_lane_mapping ≡ ok out =
                    rw (found, paired, missing, group_candidates) at made in
                  cc no
              | inr (second, found₂) ↦
                  let both =
                    lane_candidates tbd_start green_ends base mg first
                    ++ lane_candidates tbd_start green_ends base mg second in
                  let yes : ok both ≡ ok out =
                    rw (found, paired, found₂, group_candidates) at made in
                  let eq : both ≡ out = cc yes in
                  rw (← eq) (
                    All-append (ExtendsBy fixed)
                      (lane_candidates tbd_start green_ends base mg first)
                      (lane_candidates tbd_start green_ends base mg second) all
                      (lane_candidates-ExtendsBy fixed mg second h p))
            ]
          ]
    ]

    candidates_after-ExtendsBy :
        (fixed : List ℕ) (m : LaneMap) (mgs : List MovementGroup) (out : List DesiredPhasePlan)
        → All P mgs
        → candidates_after tbd_start green_ends base m fixed mgs ≡ ok out
        → All (ExtendsBy fixed) out
    unfolding candidates_after
    candidates_after-ExtendsBy fixed m [] out ps made = let eq : [] ≡ out = cc made in rw (← eq) tt
    candidates_after-ExtendsBy fixed m (mg ∷ mgs) out ps made =
        elim (Bool-cases (can_be_added fixed mg)) [
          | inr refused ↦
              candidates_after-ExtendsBy fixed m mgs out ps.1
                (rw (refused, candidates_after) at made)
          | inl added ↦ elim (Result-cases (group_candidates tbd_start green_ends base m mg)) [
            | inr (x, bad) ↦
                let no : err x ≡ ok out = rw (added, bad, candidates_after) at made in cc no
            | inl (here, known) ↦
                elim (Result-cases (candidates_after tbd_start green_ends base m fixed mgs)) [
                  | inr (x, bad) ↦
                      let no : err x ≡ ok out = rw (added, known, bad, candidates_after) at made in
                      cc no
                  | inl (later, rest) ↦
                      let yes : ok (here ++ later) ≡ ok out =
                        rw (added, known, rest, candidates_after) at made in
                      let eq : here ++ later ≡ out = cc yes in
                      rw (← eq) (
                        All-append (ExtendsBy fixed) here later
                          (group_candidates-ExtendsBy fixed m mg here
                            (can_be_added-any_repeated fixed mg added) ps.0 known)
                          (candidates_after-ExtendsBy fixed m mgs later ps.1 rest))
                ]
          ]
        ]

  -- Every candidate that the generator lists for a plan is the plan and one green behind it, of a
  -- movement group that shares no signal group with the plan's last green; it starts with the time that
  -- is to be decided and ends with the green for the queue of some lane.
  pub candidate_list-Extends :
      (m : LaneMap) (g : GreenTiming) (gs : List GreenTiming) (mgs : List MovementGroup)
      (out : List DesiredPhasePlan)
      → candidate_list tbd_start green_ends base m (g ∷ gs) mgs ≡ ok out
      → All (Extends (last g gs).signal_groups) out
  unfolding candidate_list
  candidate_list-Extends m g gs mgs out made =
      All-map (ExtendsBy (λ mg. Unit) (last g gs).signal_groups) (Extends (last g gs).signal_groups)
        (λ plan e. e.0) out
        (candidates_after-ExtendsBy (λ mg. Unit) (last g gs).signal_groups m mgs out (all_tt mgs)
          made)
    where
      all_tt : (mgs : List MovementGroup) → All (λ mg. Unit {0}) mgs
      all_tt [] = tt
      all_tt (mg ∷ mgs) = (tt, all_tt mgs)

-- Every candidate that the generator lists for a plan of one green is accepted by the service that
-- controls the signals, where every signal group of the controller and of the movement groups has a
-- phase: it returns, with two commands for each of the two greens.
pub candidate_list-update_tsc_control_queue :
    (tbd_start : ℕ) (green_ends : List (ℕ × ℕ)) (timestamp : ℕ) (m : LaneMap) (g : GreenTiming)
    (mgs : List MovementGroup) (plans : List DesiredPhasePlan) (groups : IntMap) (now : ℕ)
    (queue : List SnmpCmd)
    → candidate_list tbd_start green_ends
        (record { timestamp = timestamp; desired_phase_plan = g ∷ [] })
        m
        (g ∷ [])
        mgs
      ≡ ok plans
    → Mapped groups (map (λ e. e.0) groups)
    → All (λ mg. Mapped groups (groups_of mg)) mgs
    → All
        (λ plan.
          (out : List SnmpCmd) × (update_tsc_control_queue groups now plan.desired_phase_plan queue
            ≡ done out)
          × (length out ≡ 4))
        plans
unfolding candidate_list candidate
candidate_list-update_tsc_control_queue tbd_start green_ends timestamp m g mgs plans groups now
      queue made mapped known =
    let base : DesiredPhasePlan = record { timestamp = timestamp; desired_phase_plan = g ∷ [] } in
    let Known : MovementGroup → Type 0 = λ mg. Mapped groups (groups_of mg) in
    All-map (ExtendsBy tbd_start green_ends base Known g.signal_groups)
      (λ plan.
        (out : List SnmpCmd) × (update_tsc_control_queue groups now plan.desired_phase_plan queue
          ≡ done out)
        × (length out ≡ 4))
      (λ plan e.
        let next : GreenTiming = record {
          start_time = tbd_start;
          end_time = e.0.2;
          signal_groups = groups_of e.0.0;
        } in
        let same : plan.desired_phase_plan ≡ g ∷ next ∷ [] = ap (λ p. p.desired_phase_plan) e.0.3 in
        rw same (update_queue_total groups now g next [] queue mapped (e.1, tt) e.0.4))
      plans
      (candidates_after-ExtendsBy tbd_start green_ends base Known g.signal_groups m mgs plans known
        made)
