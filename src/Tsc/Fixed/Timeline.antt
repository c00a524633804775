-- ===== src/Tsc/Fixed/Timeline.antt =====
-- The fixed projection of one movement is a signal timeline.
use carma_streets.Base.{ℕ, zero, suc, ◌≤◌, ◌≡◌, refl, List, [], ◌∷◌, length, ok, arith, add64}
use carma_streets.Spat.Time.{
  convert_hour_tenth_secs2epoch_ts, convert_msepoch_to_hour_tenth_secs, set_start_time,
  set_min_end_time, set_max_end_time, get_epoch_min_end_time,
}
use carma_streets.Spat.Time.Marks.{mark-le}
use carma_streets.Spat.Movement.{
  MovementPhaseState, MovementEvent, stop_and_remain, protected_movement_allowed,
  protected_clearance,
}
use carma_streets.Spat.Projection.Chain.{IsLinked, LinkedFrom, Follows}
use carma_streets.Tsc.State.{SignalGroupState}
use carma_streets.Tsc.Fixed.{
  event_over, get_following_event, following_events, current_end_time, end_current, project_events,
}

-- The states of the fixed cycle.
abbrev pub InCycle : MovementPhaseState → Type 0
InCycle stop_and_remain = Unit
InCycle protected_movement_allowed = Unit
InCycle protected_clearance = Unit
InCycle _ = ⊥

-- A valid mark survives its way over the epoch time.
pub mark-epoch :
    (now m : ℕ)
    → m ≤ 36000
    → convert_msepoch_to_hour_tenth_secs now (convert_hour_tenth_secs2epoch_ts now m) ≡ m
unfolding convert_msepoch_to_hour_tenth_secs convert_hour_tenth_secs2epoch_ts
mark-epoch now m h = ground arith

module _ (now : ℕ) where
  abbrev mark : ℕ → ℕ
  mark = convert_msepoch_to_hour_tenth_secs now

  following_event-linked :
      (st : MovementPhaseState) (end_time : ℕ) (s : SignalGroupState)
      → InCycle st
      → (e : MovementEvent) × (get_following_event now st end_time s ≡ ok e)
        × InCycle e.event_state
        × Follows st e.event_state
        × (e.timing.start_time ≡ mark end_time)
        × (e.timing.min_end_time ≤ 36000)
  unfolding get_following_event event_over set_start_time set_min_end_time set_max_end_time
  following_event-linked protected_movement_allowed end_time s h =
      (_, refl, tt, refl, refl, mark-le now (add64 end_time s.yellow_duration))
  following_event-linked protected_clearance end_time s h =
      (_, refl, tt, refl, refl, mark-le now (add64 end_time s.red_duration))
  following_event-linked stop_and_remain end_time s h =
      (_, refl, tt, refl, refl, mark-le now (add64 end_time s.green_duration))
  following_event-linked _ end_time s h = absurd h

  following_events-linked :
      (n : ℕ) (st : MovementPhaseState) (end_time : ℕ) (s : SignalGroupState)
      → InCycle st
      → (es : List MovementEvent) × (following_events now n st end_time s ≡ ok es)
        × (length es ≡ n)
        × LinkedFrom st (mark end_time) es
  unfolding following_events get_epoch_min_end_time
  following_events-linked zero st end_time s h = ([], refl, refl, tt)
  following_events-linked (suc n) st end_time s h =
      let (e, made, in_cycle, follows, starts, valid) = following_event-linked st end_time s h in
      let again = convert_hour_tenth_secs2epoch_ts now e.timing.min_end_time in
      let (es, rest, count, linked) = following_events-linked n e.event_state again s in_cycle in
      (
        e ∷ es,
        rw (made, rest) refl,
        omega (arith, count),
        (follows, starts, rw (mark-epoch now e.timing.min_end_time valid) at linked),
      )

  -- For a movement whose one event is in the fixed cycle of red, green and yellow, the projection
  -- returns. It gives four events, the first in the state that is shown, and they form a timeline:
  -- each event follows the one before in the cycle and starts on the mark on which that one ends.
  pub project_events-IsLinked :
      (start_time : ℕ) (e : MovementEvent) (s : SignalGroupState)
      → InCycle e.event_state
      → (first : MovementEvent) × (later : List MovementEvent) × (project_events now start_time e []
            s
          ≡ ok (first ∷ later))
        × (first.event_state ≡ e.event_state)
        × (length later ≡ 3)
        × IsLinked (first ∷ later)
  unfolding project_events current_end_time end_current set_min_end_time set_max_end_time
  project_events-IsLinked start_time e s h =
      let (end_time, known) = ends e.event_state h in
      let (later, made, count, linked) = following_events-linked 3 e.event_state end_time s h in
      (
        end_current now end_time e,
        later,
        rw (known, made) refl,
        state_kept end_time,
        count,
        starts end_time later linked,
      )
    where
      ends :
          (st : MovementPhaseState)
          → InCycle st
          → (end_time : ℕ) × (current_end_time now st start_time s ≡ ok end_time)
      ends stop_and_remain k = (_, refl)
      ends protected_movement_allowed k = (_, refl)
      ends protected_clearance k = (_, refl)
      ends _ k = absurd k

      state_kept : (end_time : ℕ) → (end_current now end_time e).event_state ≡ e.event_state
      state_kept end_time = refl

      starts :
          (end_time : ℕ) (later : List MovementEvent)
          → LinkedFrom e.event_state (mark end_time) later
          → IsLinked (end_current now end_time e ∷ later)
      starts end_time later k = k
