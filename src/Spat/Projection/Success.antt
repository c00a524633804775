-- ===== src/Spat/Projection/Success.antt =====
-- When an update from a plan goes through.
use carma_streets.Base.{
  ℕ, ◌≡◌, refl, sym, ◌∙◌, List, [], ◌∷◌, Bool, true, false, ◌||◌, if◌then◌else◌, elem, Distinct,
  All, All-map, Result, ok, err, done, arith, inl, inr, Result-cases, Fault,
}
use carma_streets.Plan.{GreenTiming, DesiredPhasePlan, TscConfiguration, is_empty}
use carma_streets.Spat.Movement.{
  MovementPhaseState, MovementEvent, MovementState, is_red, is_yellow, is_green,
}
use carma_streets.Spat.Intersection.{clear_movement, clear_future_movement_events}
use carma_streets.Spat.Intersection.Store.{groups}
use carma_streets.Spat.Intersection.Single.{HasCurrentOnly, clear-HasCurrentOnly}
use carma_streets.Spat.Projection.{
  first_green_events, next_green_events, process_first_desired_green,
  process_second_onward_desired_green, process_entry, process_onward, process_plan,
  update_spat_with_candidate_dpp,
}
use carma_streets.Spat.Projection.Reference.{
  KeepsGroup, process_each, process_movements-process_each,
}
use carma_streets.Spat.Projection.Evolution.{
  Each, Each-groups, process_each-Each, first_keeps, second_keeps, groups-clear,
}
use carma_streets.Spat.Projection.Chain.{
  EndsRedFrom-last, IsProjected, first_green_events-IsProjected, next_green_events-IsProjected,
  process_first-events, process_second-events, clear_movement-current, current_of,
}

-- A movement of the first entry must be green or red, any other one red or yellow.
abbrev pub fits : GreenTiming → ℕ → MovementEvent → Bool
fits t sg e =
    if elem sg t.signal_groups
    then is_green e.event_state || is_red e.event_state
    else is_red e.event_state || is_yellow e.event_state

abbrev Succeeds : (MovementState → Result MovementState) → MovementState → Type 0
Succeeds process m = (n : MovementState) × (process m ≡ ok n)

process_each_total :
    (process : MovementState → Result MovementState) (ms : List MovementState)
    → All (Succeeds process) ms
    → (out : List MovementState) × (process_each process ms ≡ done out)
unfolding process_each
process_each_total process [] h = ([], refl)
process_each_total process (m ∷ ms) h =
    let (n, k) = h.0 in
    let (rest, later) = process_each_total process ms h.1 in
    (n ∷ rest, rw (k, process_each) (rw later))

All-through :
    (P Q : MovementState → Type 0) (process : MovementState → Result MovementState)
    (f : (m n : MovementState) → P m → process m ≡ ok n → Q n) (ms out : List MovementState)
    → All P ms
    → Each (λ m n. process m ≡ ok n) ms out
    → All Q out
All-through P Q process f [] [] p h = tt
All-through P Q process f [] (n ∷ out) p h = absurd h
All-through P Q process f (m ∷ ms) [] p h = absurd h
All-through P Q process f (m ∷ ms) (n ∷ out) p h =
    (f m n p.0 h.0, All-through P Q process f ms out p.1 h.1)

abbrev Projected : MovementState → Type 0
Projected m = IsProjected m.state_time_speed

-- Every entry names a signal group.
abbrev pub NamesGroups : GreenTiming → Type 0
NamesGroups t = is_empty t.signal_groups ≡ false

module _ (now : ℕ) (tsc : TscConfiguration) where
  first_fits :
      (t : GreenTiming) (sg : ℕ) (e : MovementEvent)
      → fits t sg e ≡ true
      → (out : List MovementEvent) × (first_green_events now tsc t sg (e ∷ []) ≡ ok out)
  unfolding first_green_events
  first_fits t sg e h = elim (Result-cases (first_green_events now tsc t sg (e ∷ []))) [
    | inl found ↦ found
    | inr (x, k) ↦ absurd (ground arith)
  ]

  next_never_throws :
      (t : GreenTiming) (x : Fault) (sg : ℕ) (es : List MovementEvent)
      → IsProjected es
      → ¬ (next_green_events now tsc t sg es ≡ err x)
  unfolding next_green_events
  next_never_throws t x sg [] q k = q.1
  next_never_throws t x sg (e ∷ es) q k = let red = EndsRedFrom-last e es q.1 in ground arith

  next_returns :
      (t : GreenTiming) (m : MovementState)
      → Projected m
      → Succeeds (process_second_onward_desired_green now tsc t) m
  unfolding process_second_onward_desired_green
  next_returns t m p =
      elim (Result-cases (next_green_events now tsc t m.signal_group m.state_time_speed)) [
        | inl (es, k) ↦
            (record m { state_time_speed = es }, rw (k, process_second_onward_desired_green))
        | inr (x, k) ↦ absurd (next_never_throws t x m.signal_group m.state_time_speed p k)
      ]

  process_entry_total :
      (process : MovementState → Result MovementState) (t : GreenTiming)
      (copies ms : List MovementState)
      → KeepsGroup process
      → NamesGroups t
      → groups copies ≡ groups ms
      → Distinct (groups ms)
      → All HasCurrentOnly copies
      → All (Succeeds process) ms
      → (out : List MovementState) × (process_entry now tsc process t copies ms ≡ done out)
        × Each (λ m n. process m ≡ ok n) ms out
  unfolding process_entry
  process_entry_total process t copies ms keeps named e u f s =
      let (out, made) = process_each_total process ms s in
      (
        out,
        rw named (process_movements-process_each process keeps copies ms e u f ∙ made),
        process_each-Each process ms out made,
      )

  process_onward_total :
      (ts : List GreenTiming) (copies ms : List MovementState)
      → All NamesGroups ts
      → groups copies ≡ groups ms
      → Distinct (groups ms)
      → All HasCurrentOnly copies
      → All Projected ms
      → (out : List MovementState) × (process_onward now tsc ts copies ms ≡ done out)
  unfolding process_onward
  process_onward_total [] copies ms named e u f p = (ms, refl)
  process_onward_total (t ∷ ts) copies ms named e u f p =
      let process = process_second_onward_desired_green now tsc t in
      let (mid, made, each) =
        process_entry_total process t copies ms (second_keeps now tsc t) named.0 e u f
          (All-map Projected (Succeeds process) (next_returns t) ms p) in
      let same = Each-groups (λ m n. process m ≡ ok n) (second_keeps now tsc t) ms mid each in
      let (out, later) = process_onward_total ts copies mid named.1 (e ∙ sym same) (rw same u) f (
        All-through Projected Projected process
          (λ m n q k.
            next_green_events-IsProjected now tsc t m.signal_group m.state_time_speed
              n.state_time_speed q (process_second-events now tsc t m n k).0)
          ms mid p each) in
      (out, rw made later)

  -- The current event of every movement fits the first entry.
  abbrev pub FitsAll : GreenTiming → MovementPhaseState → List MovementState → Type 0
  FitsAll t garbage ms = All (λ m. fits t m.signal_group (current_of garbage m) ≡ true) ms

  cleared_succeed :
      (t : GreenTiming) (garbage : MovementPhaseState) (ms : List MovementState)
      → FitsAll t garbage ms
      → All
          (Succeeds (process_first_desired_green now tsc t))
          (clear_future_movement_events garbage ms)
  unfolding clear_future_movement_events process_first_desired_green clear_movement
  cleared_succeed t garbage [] h = tt
  cleared_succeed t garbage (m ∷ ms) h =
      let (es, k) = first_fits t m.signal_group (current_of garbage m) h.0 in
      let one = clear_movement-current garbage m in
      (
        (record m { state_time_speed = es }, rw (one, process_first_desired_green, k)),
        cleared_succeed t garbage ms h.1,
      )

  first_projects :
      (t : GreenTiming) (garbage : MovementPhaseState) (ms out : List MovementState)
      → Each
          (λ m n. process_first_desired_green now tsc t m ≡ ok n)
          (clear_future_movement_events garbage ms)
          out
      → All Projected out
  unfolding clear_future_movement_events
  first_projects t garbage [] [] h = tt
  first_projects t garbage [] (n ∷ out) h = absurd h
  first_projects t garbage (m ∷ ms) [] h = absurd h
  first_projects t garbage (m ∷ ms) (n ∷ out) h =
      let e = current_of garbage m in
      let one = clear_movement-current garbage m in
      let made = (process_first-events now tsc t (clear_movement garbage m) n h.0).0 in
      (
        first_green_events-IsProjected now tsc t (clear_movement garbage m).signal_group e
            n.state_time_speed (rw one at made),
        first_projects t garbage ms out h.1,
      )

  -- An update from a plan returns, whatever the plan's times are and however many entries follow, if
  -- the signal groups are distinct, every entry names a signal group, and every movement's current
  -- event fits the first entry: green or red if the entry names its group, red or yellow if not.
  pub update_spat_total :
      (garbage : MovementPhaseState) (plan : DesiredPhasePlan) (t : GreenTiming)
      (ts : List GreenTiming) (ms : List MovementState)
      → plan.desired_phase_plan ≡ t ∷ ts
      → All NamesGroups (t ∷ ts)
      → Distinct (groups ms)
      → FitsAll t garbage ms
      → (out : List MovementState) × (update_spat_with_candidate_dpp now tsc garbage plan ms
          ≡ done out)
  unfolding update_spat_with_candidate_dpp process_plan
  update_spat_total garbage plan t ts ms e named u f =
      let cleared = clear_future_movement_events garbage ms in
      let process = process_first_desired_green now tsc t in
      let distinct : Distinct (groups cleared) = rw (groups-clear garbage ms) u in
      let (mid, made, each) =
        process_entry_total process t cleared cleared (first_keeps now tsc t) named.0 refl distinct
          (clear-HasCurrentOnly garbage ms) (cleared_succeed t garbage ms f) in
      let same = Each-groups (λ m n. process m ≡ ok n) (first_keeps now tsc t) cleared mid each in
      let (out, later) =
        process_onward_total ts cleared mid named.1 (sym same) (rw same distinct)
          (clear-HasCurrentOnly garbage ms) (first_projects t garbage ms mid each) in
      (out, rw (e, process_plan, made) later)
