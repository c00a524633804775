-- ===== src/Spat/Projection/Chain.antt =====
-- The projected events of a movement follow one another: red, green, yellow, red, each starting on the
-- mark on which the one before ends.
use carma_streets.Base.{
  ℕ, ◌≡◌, refl, List, [], ◌∷◌, ◌++◌, true, ◌&&◌, ◌||◌, elem, last, ok, arith, inl, inr, Bool-cases,
  Distinct, All, done,
}
use mathlib.Core.List.{append-nil}
use carma_streets.Plan.{GreenTiming, TscConfiguration, DesiredPhasePlan}
use carma_streets.Spat.Time.{
  unknown_times, set_start_time, set_min_end_time, convert_msepoch_to_hour_tenth_secs,
}
use carma_streets.Spat.Movement.{
  MovementPhaseState, MovementEvent, MovementState, is_red, is_yellow, is_green,
}
use carma_streets.Spat.Projection.{
  populate_movement_event, end_at, green_yellow_red, end_last_at, desired_yellow, desired_red,
  clearance_end, first_green_events, next_green_events, process_first_desired_green,
  process_second_onward_desired_green, update_spat_with_candidate_dpp,
}
use carma_streets.Spat.Intersection.{clear_movement, current_only, current_event}
use carma_streets.Spat.Intersection.Store.{groups}
use carma_streets.Spat.Projection.Evolution.{Each, Onward, Planned, update_spat-Planned}

-- The signal cycle.
abbrev pub Follows : MovementPhaseState → MovementPhaseState → Type 0
Follows s t =
    ((is_green s && is_yellow t) || (is_yellow s && is_red t) || (is_red s && is_green t)) ≡ true

-- The events after one of the given state that ends on the given mark.
abbrev pub LinkedFrom : MovementPhaseState → ℕ → List MovementEvent → Type 0
LinkedFrom s mark [] = Unit
LinkedFrom s mark (e ∷ es) =
    Follows s e.event_state
    × (e.timing.start_time ≡ mark)
    × LinkedFrom e.event_state e.timing.min_end_time es

-- Each event follows the one before in the cycle and starts on the mark on which that one ends.
abbrev pub IsLinked : List MovementEvent → Type 0
IsLinked [] = Unit
IsLinked (e ∷ es) = LinkedFrom e.event_state e.timing.min_end_time es

abbrev EndsRedFrom : MovementPhaseState → List MovementEvent → Type 0
EndsRedFrom s [] = is_red s ≡ true
EndsRedFrom s (e ∷ es) = EndsRedFrom e.event_state es

-- There is a last event, and it is red.
abbrev pub EndsRed : List MovementEvent → Type 0
EndsRed [] = ⊥
EndsRed (e ∷ es) = EndsRedFrom e.event_state es

pub EndsRedFrom-last :
    (e : MovementEvent) (es : List MovementEvent)
    → EndsRedFrom e.event_state es
    → is_red (last e es).event_state ≡ true
EndsRedFrom-last e [] h = h
EndsRedFrom-last e (f ∷ es) h = EndsRedFrom-last f es h

module _ (now : ℕ) where
  abbrev mark : ℕ → ℕ
  mark = convert_msepoch_to_hour_tenth_secs now

  green_yellow_red-LinkedFrom :
      (s : MovementPhaseState) (t : GreenTiming) (yellow red : ℕ)
      → is_red s ≡ true
      → LinkedFrom s (mark t.start_time) (green_yellow_red now t yellow red)
  unfolding green_yellow_red populate_movement_event set_start_time set_min_end_time
  green_yellow_red-LinkedFrom s t yellow red h = ground arith

  end_last_at-LinkedFrom :
      (s : MovementPhaseState) (m time : ℕ) (e : MovementEvent) (es tail : List MovementEvent)
      → LinkedFrom s m (e ∷ es)
      → LinkedFrom (last e es).event_state (mark time) tail
      → LinkedFrom s m (end_last_at now time (e ∷ es) ++ tail)
  unfolding end_last_at end_at set_min_end_time
  end_last_at-LinkedFrom s m time e [] tail h k = (h.0, h.1, k)
  end_last_at-LinkedFrom s m time e (f ∷ es) tail h k =
      (h.0, h.1, end_last_at-LinkedFrom e.event_state e.timing.min_end_time time f es tail h.2 k)

  end_last_at-IsLinked :
      (time : ℕ) (e : MovementEvent) (es tail : List MovementEvent)
      → IsLinked (e ∷ es)
      → LinkedFrom (last e es).event_state (mark time) tail
      → IsLinked (end_last_at now time (e ∷ es) ++ tail)
  unfolding end_last_at end_at set_min_end_time
  end_last_at-IsLinked time e [] tail h k = k
  end_last_at-IsLinked time e (f ∷ es) tail h k =
      end_last_at-LinkedFrom e.event_state e.timing.min_end_time time f es tail h k

  end_last_at-EndsRedFrom :
      (s : MovementPhaseState) (time : ℕ) (e : MovementEvent) (es tail : List MovementEvent)
      → EndsRedFrom (last e es).event_state tail
      → EndsRedFrom s (end_last_at now time (e ∷ es) ++ tail)
  unfolding end_last_at end_at
  end_last_at-EndsRedFrom s time e [] tail h = h
  end_last_at-EndsRedFrom s time e (f ∷ es) tail h =
      end_last_at-EndsRedFrom e.event_state time f es tail h

  end_last_at-EndsRed :
      (time : ℕ) (e : MovementEvent) (es tail : List MovementEvent)
      → EndsRedFrom (last e es).event_state tail
      → EndsRed (end_last_at now time (e ∷ es) ++ tail)
  unfolding end_last_at end_at
  end_last_at-EndsRed time e [] tail h = h
  end_last_at-EndsRed time e (f ∷ es) tail h =
      end_last_at-EndsRedFrom e.event_state time f es tail h

  green_yellow_red-EndsRed :
      (s : MovementPhaseState) (t : GreenTiming) (yellow red : ℕ)
      → EndsRedFrom s (green_yellow_red now t yellow red)
  unfolding green_yellow_red populate_movement_event
  green_yellow_red-EndsRed s t yellow red = refl

-- A movement as the projection leaves it between two entries of the plan.
abbrev pub IsProjected : List MovementEvent → Type 0
IsProjected es = IsLinked es × EndsRed es

module _ (now : ℕ) (tsc : TscConfiguration) (t : GreenTiming) where
  pub first_green_events-IsProjected :
      (sg : ℕ) (e : MovementEvent) (out : List MovementEvent)
      → first_green_events now tsc t sg (e ∷ []) ≡ ok out
      → IsProjected out
  unfolding first_green_events end_at green_yellow_red populate_movement_event set_start_time
      set_min_end_time
  first_green_events-IsProjected sg e out h = ground arith

  pub next_green_events-IsProjected :
      (sg : ℕ) (es out : List MovementEvent)
      → IsProjected es
      → next_green_events now tsc t sg es ≡ ok out
      → IsProjected out
  unfolding next_green_events
  next_green_events-IsProjected sg [] out p h = absurd p.1
  next_green_events-IsProjected sg (e ∷ es) out p h =
      let red = EndsRedFrom-last e es p.1 in
      elim (Bool-cases (elem sg t.signal_groups)) [
        | inl desired ↦
            let made : end_last_at now t.start_time (e ∷ es)
                  ++ green_yellow_red now t (desired_yellow now tsc t) (desired_red now tsc t)
                ≡ out =
              cc (rw (desired, red) at h) in
            rw (← made) (
              end_last_at-IsLinked now t.start_time e es _ p.0
                  (green_yellow_red-LinkedFrom now (last e es).event_state t _ _ red),
              end_last_at-EndsRed now t.start_time e es _
                  (green_yellow_red-EndsRed now (last e es).event_state t _ _),
            )
        | inr other ↦
            let made : end_last_at now (clearance_end now tsc t) (e ∷ es) ≡ out =
              cc (rw (other, red) at h) in
            rw (← made, ← append-nil (end_last_at now (clearance_end now tsc t) (e ∷ es)))
              (
                end_last_at-IsLinked now (clearance_end now tsc t) e es [] p.0 tt,
                end_last_at-EndsRed now (clearance_end now tsc t) e es [] red,
              )
      ]

  pub process_first-events :
      (m n : MovementState)
      → process_first_desired_green now tsc t m ≡ ok n
      → (first_green_events now tsc t m.signal_group m.state_time_speed ≡ ok n.state_time_speed)
        × (n.signal_group ≡ m.signal_group)
  unfolding process_first_desired_green
  process_first-events m n h = ground arith

  pub process_second-events :
      (m n : MovementState)
      → process_second_onward_desired_green now tsc t m ≡ ok n
      → (next_green_events now tsc t m.signal_group m.state_time_speed ≡ ok n.state_time_speed)
        × (n.signal_group ≡ m.signal_group)
  unfolding process_second_onward_desired_green
  process_second-events m n h = ground arith

pub All-of_Each {ℓ} :
    {A : Type ℓ} (R : A → A → Type 0) (P : A → Type 0) (f : (x y : A) → R x y → P y)
    (xs ys : List A)
    → Each R xs ys
    → All P ys
All-of_Each R P f [] [] h = tt
All-of_Each R P f [] (y ∷ ys) h = absurd h
All-of_Each R P f (x ∷ xs) [] h = absurd h
All-of_Each R P f (x ∷ xs) (y ∷ ys) h = (f x y h.0, All-of_Each R P f xs ys h.1)

abbrev first_or : MovementPhaseState → List MovementEvent → MovementEvent
first_or garbage [] = record { event_state = garbage; timing = unknown_times; speeds = [] }
first_or garbage (e ∷ es) = e

-- The current event of a movement once the future ones are cleared.
abbrev pub current_of : MovementPhaseState → MovementState → MovementEvent
current_of garbage m = first_or garbage m.state_time_speed

pub clear_movement-current :
    (garbage : MovementPhaseState) (m : MovementState)
    → (clear_movement garbage m).state_time_speed ≡ current_of garbage m ∷ []
unfolding clear_movement current_only current_event
clear_movement-current garbage m = only m.state_time_speed
  where
    only : (es : List MovementEvent) → current_only garbage es ≡ first_or garbage es ∷ []
    only [] = refl
    only (e ∷ es) = refl

module _ (now : ℕ) (tsc : TscConfiguration) where
  Onward-IsProjected :
      (ts : List GreenTiming) (m n : MovementState)
      → IsProjected m.state_time_speed
      → Onward now tsc ts m n
      → IsProjected n.state_time_speed
  Onward-IsProjected [] m n p h = rw (← h) p
  Onward-IsProjected (t ∷ ts) m n p (k, first, later) =
      Onward-IsProjected ts k n
        (next_green_events-IsProjected now tsc t m.signal_group m.state_time_speed
          k.state_time_speed p (process_second-events now tsc t m k first).0)
        later

  Planned-IsProjected :
      (t : GreenTiming) (ts : List GreenTiming) (garbage : MovementPhaseState) (m n : MovementState)
      → Planned now tsc (t ∷ ts) (clear_movement garbage m) n
      → IsProjected n.state_time_speed
  Planned-IsProjected t ts garbage m n (k, first, later) =
      let e = current_of garbage m in
      let one = clear_movement-current garbage m in
      let made = (process_first-events now tsc t (clear_movement garbage m) k first).0 in
      Onward-IsProjected ts k n
        (first_green_events-IsProjected now tsc t (clear_movement garbage m).signal_group e
          k.state_time_speed (rw one at made))
        later

  -- After an update from a plan with at least one entry, and with distinct signal groups, the events
  -- of every movement form a signal timeline: each event follows the one before in the cycle green,
  -- yellow, red, each starts on the mark on which the one before ends, and the last one is red.
  pub update_spat-IsProjected :
      (garbage : MovementPhaseState) (plan : DesiredPhasePlan) (t : GreenTiming)
      (ts : List GreenTiming) (ms out : List MovementState)
      → plan.desired_phase_plan ≡ t ∷ ts
      → Distinct (groups ms)
      → update_spat_with_candidate_dpp now tsc garbage plan ms ≡ done out
      → All (λ n. IsProjected n.state_time_speed) out
  update_spat-IsProjected garbage plan t ts ms out e u h =
      All-of_Each (λ m n. Planned now tsc (t ∷ ts) (clear_movement garbage m) n)
        (λ n. IsProjected n.state_time_speed) (Planned-IsProjected t ts garbage) ms out
        (rw e at (update_spat-Planned now tsc garbage plan ms out u h))
