-- ===== src/Spat/Projection/Greens.antt =====
-- The greens that a projection shows are those of the plan.
use carma_streets.Base.{
  ℕ, ◌≡◌, refl, sym, ◌∙◌, ap, List, [], ◌∷◌, ◌++◌, true, if◌then◌else◌, elem, last, Distinct, ok,
  done, arith, inl, inr, Bool-cases,
}
use mathlib.Core.List.{append-nil, append_assoc}
use carma_streets.Plan.{GreenTiming, DesiredPhasePlan, TscConfiguration}
use carma_streets.Spat.Time.{set_start_time, set_min_end_time, convert_msepoch_to_hour_tenth_secs}
use carma_streets.Spat.Movement.{MovementPhaseState, MovementEvent, MovementState, is_red, is_green}
use carma_streets.Spat.Intersection.{clear_movement}
use carma_streets.Spat.Intersection.Store.{groups}
use carma_streets.Spat.Projection.{
  populate_movement_event, end_at, green_yellow_red, end_last_at, desired_yellow, desired_red,
  clearance_end, first_green_events, next_green_events, update_spat_with_candidate_dpp,
}
use carma_streets.Spat.Projection.Evolution.{Each, Each-map, Onward, Planned, update_spat-Planned}
use carma_streets.Spat.Projection.Chain.{
  EndsRed, EndsRedFrom-last, IsProjected, first_green_events-IsProjected,
  next_green_events-IsProjected, process_first-events, process_second-events,
  clear_movement-current, current_of,
}

-- The start and end marks of the green events.
abbrev pub greens : List MovementEvent → List (ℕ × ℕ)
greens [] = []
greens (e ∷ es) =
    if is_green e.event_state
    then (e.timing.start_time, e.timing.min_end_time) ∷ greens es
    else greens es

-- The green intervals that entries of a plan ask for a signal group.
abbrev pub served : ℕ → ℕ → List GreenTiming → List (ℕ × ℕ)
served now sg [] = []
served now sg (t ∷ ts) =
    if elem sg t.signal_groups
    then (
      convert_msepoch_to_hour_tenth_secs now t.start_time,
      convert_msepoch_to_hour_tenth_secs now t.end_time,
    )
      ∷ served now sg ts
    else served now sg ts

-- The first entry: a movement that is green already keeps the start of its green.
abbrev pub first_served : ℕ → ℕ → MovementEvent → GreenTiming → List (ℕ × ℕ)
first_served now sg e t =
    if elem sg t.signal_groups
    then (
      (if is_green e.event_state
          then e.timing.start_time
          else convert_msepoch_to_hour_tenth_secs now t.start_time),
      convert_msepoch_to_hour_tenth_secs now t.end_time,
    )
      ∷ []
    else []

greens-end_last_at :
    (now time : ℕ) (e : MovementEvent) (es tail : List MovementEvent)
    → is_red (last e es).event_state ≡ true
    → greens (end_last_at now time (e ∷ es) ++ tail) ≡ greens (e ∷ es) ++ greens tail
unfolding end_last_at end_at
greens-end_last_at now time e [] tail h = ground arith
greens-end_last_at now time e (f ∷ es) tail h =
    ground (arith, greens-end_last_at now time f es tail h)

module _ (now : ℕ) (tsc : TscConfiguration) (t : GreenTiming) where
  first_green_events-greens :
      (sg : ℕ) (e : MovementEvent) (out : List MovementEvent)
      → first_green_events now tsc t sg (e ∷ []) ≡ ok out
      → greens out ≡ first_served now sg e t
  unfolding first_green_events end_at green_yellow_red populate_movement_event set_start_time
      set_min_end_time
  first_green_events-greens sg e out h = ground arith

  green_yellow_red-greens :
      (yellow red : ℕ)
      → greens (green_yellow_red now t yellow red)
        ≡ (
          convert_msepoch_to_hour_tenth_secs now t.start_time,
          convert_msepoch_to_hour_tenth_secs now t.end_time,
        )
          ∷ []
  unfolding green_yellow_red populate_movement_event set_start_time set_min_end_time
  green_yellow_red-greens yellow red = refl

  next_green_events-greens :
      (sg : ℕ) (es out : List MovementEvent)
      → EndsRed es
      → next_green_events now tsc t sg es ≡ ok out
      → greens out ≡ greens es ++ served now sg (t ∷ [])
  unfolding next_green_events
  next_green_events-greens sg [] out p h = absurd p
  next_green_events-greens sg (e ∷ es) out p h =
      let red = EndsRedFrom-last e es p in
      elim (Bool-cases (elem sg t.signal_groups)) [
        | inl desired ↦
            let made : end_last_at now t.start_time (e ∷ es)
                  ++ green_yellow_red now t (desired_yellow now tsc t) (desired_red now tsc t)
                ≡ out =
              cc (rw (desired, red) at h) in
            rw (← made, desired)
              (greens-end_last_at now t.start_time e es _ red
                ∙ ap (◌++◌ (greens (e ∷ es))) (green_yellow_red-greens _ _))
        | inr other ↦
            let made : end_last_at now (clearance_end now tsc t) (e ∷ es) ≡ out =
              cc (rw (other, red) at h) in
            rw (← made, other, ← append-nil (end_last_at now (clearance_end now tsc t) (e ∷ es)))
              (greens-end_last_at now (clearance_end now tsc t) e es [] red)
      ]

module _ (now : ℕ) (tsc : TscConfiguration) where
  served-append :
      (sg : ℕ) (t : GreenTiming) (ts : List GreenTiming)
      → served now sg (t ∷ []) ++ served now sg ts ≡ served now sg (t ∷ ts)
  served-append sg t ts = ground arith

  Onward-greens :
      (ts : List GreenTiming) (m n : MovementState)
      → IsProjected m.state_time_speed
      → Onward now tsc ts m n
      → greens n.state_time_speed ≡ greens m.state_time_speed ++ served now m.signal_group ts
  Onward-greens [] m n p h = rw (← h) (sym (append-nil (greens m.state_time_speed)))
  Onward-greens (t ∷ ts) m n p (k, first, later) =
      let (made, same) = process_second-events now tsc t m k first in
      let more =
        next_green_events-greens now tsc t m.signal_group m.state_time_speed k.state_time_speed p.1
          made in
      let kept =
        next_green_events-IsProjected now tsc t m.signal_group m.state_time_speed k.state_time_speed
          p made in
      Onward-greens ts k n kept later
      ∙ rw (more, same)
          (append_assoc (greens m.state_time_speed) (served now m.signal_group (t ∷ []))
              (served now m.signal_group ts)
            ∙ ap (◌++◌ (greens m.state_time_speed)) (served-append m.signal_group t ts))

  Planned-greens :
      (t : GreenTiming) (ts : List GreenTiming) (garbage : MovementPhaseState) (m n : MovementState)
      → Planned now tsc (t ∷ ts) (clear_movement garbage m) n
      → greens n.state_time_speed
        ≡ first_served now m.signal_group (current_of garbage m) t ++ served now m.signal_group ts
  unfolding clear_movement
  Planned-greens t ts garbage m n (k, first, later) =
      let e = current_of garbage m in
      let one = clear_movement-current garbage m in
      let (events, same) = process_first-events now tsc t (clear_movement garbage m) k first in
      let made = rw one at events in
      let here = first_green_events-greens now tsc t m.signal_group e k.state_time_speed made in
      let kept =
        first_green_events-IsProjected now tsc t m.signal_group e k.state_time_speed made in
      Onward-greens ts k n kept later ∙ rw (here, same)

  -- After an update from a plan with first entry `t` and later entries `ts`, with distinct signal
  -- groups, the green events of every movement are exactly the greens that the plan asks for its
  -- signal group, in the plan's order and at the marks of the plan's times; only a movement that is
  -- green at the first entry keeps the start of its current green.
  pub update_spat-greens :
      (garbage : MovementPhaseState) (plan : DesiredPhasePlan) (t : GreenTiming)
      (ts : List GreenTiming) (ms out : List MovementState)
      → plan.desired_phase_plan ≡ t ∷ ts
      → Distinct (groups ms)
      → update_spat_with_candidate_dpp now tsc garbage plan ms ≡ done out
      → Each
          (λ m n.
            greens n.state_time_speed
            ≡ first_served now m.signal_group (current_of garbage m) t
              ++ served now m.signal_group ts)
          ms
          out
  update_spat-greens garbage plan t ts ms out e u h =
      Each-map (λ m n. Planned now tsc (t ∷ ts) (clear_movement garbage m) n) _
        (Planned-greens t ts garbage) ms out
        (rw e at (update_spat-Planned now tsc garbage plan ms out u h))
