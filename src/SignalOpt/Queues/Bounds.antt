-- ===== src/SignalOpt/Queues/Bounds.antt =====
-- streets_desired_phase_plan_generator.cpp: where a queue ends.
use Prim.Native.String.{String}
use carma_streets.Base.{
  ℕ, ◌≡◌, refl, ap, ◌⊎◌, inl, inr, List, [], ◌∷◌, ◌++◌, true, false, last, Option, none, some,
  Bool-cases,
}
use carma_streets.Scheduler.{VehicleSchedule}
use carma_streets.SignalOpt.Queues.{is_gap, before_gap, get_last_vehicle_in_queue}

module _ (headway : ℕ) (front : String) where
  -- No vehicle of the list is behind a gap.
  abbrev pub NoGaps : VehicleSchedule → List VehicleSchedule → Type 0
  NoGaps previous [] = Unit
  NoGaps previous (s ∷ ss) = (is_gap headway front previous s ≡ false) × NoGaps s ss

  -- The vehicle stands before a gap of the list, behind which there is no other.
  abbrev pub BeforeLastGap : List VehicleSchedule → VehicleSchedule → Type 0
  BeforeLastGap vs back =
      (pre : List VehicleSchedule) × (next : VehicleSchedule) × (post : List VehicleSchedule) × (vs
        ≡ pre ++ back ∷ next ∷ post)
      × (is_gap headway front back next ≡ true)
      × NoGaps next post

  before_gap-cases :
      (previous : VehicleSchedule) (found : Option VehicleSchedule) (vs : List VehicleSchedule)
      → ((before_gap headway front previous found vs ≡ found) × NoGaps previous vs)
        ⊎ ((back : VehicleSchedule) × (before_gap headway front previous found vs ≡ some back)
            × BeforeLastGap (previous ∷ vs) back)
  unfolding before_gap
  before_gap-cases previous found [] = inl (refl, tt)
  before_gap-cases previous found (s ∷ ss) = elim (Bool-cases (is_gap headway front previous s)) [
    | inl gap ↦ elim (before_gap-cases s (some previous) ss) [
      | inl (kept, none_later) ↦ inr (previous, rw gap kept, ([], s, ss, refl, gap, none_later))
      | inr (back, later, split) ↦ inr (
        back,
        rw gap later,
        (previous ∷ split.0, split.1, split.2, ap (λ vs. previous ∷ vs) split.3, split.4, split.5),
      )
    ]
    | inr close ↦ elim (before_gap-cases s found ss) [
      | inl (kept, none_later) ↦ inl (rw close kept, (close, none_later))
      | inr (back, later, split) ↦ inr (
        back,
        rw close later,
        (previous ∷ split.0, split.1, split.2, ap (λ vs. previous ∷ vs) split.3, split.4, split.5),
      )
    ]
  ]

-- The last vehicle of a queue is the last of the lane, if no vehicle is behind a gap, and otherwise the
-- one before the last gap. A gap is before a vehicle of another name than the first one's that enters at
-- its earliest time and has at least the given headway.
pub get_last_vehicle_in_queue-cases :
    (headway : ℕ) (front : VehicleSchedule) (rest : List VehicleSchedule)
    → ((get_last_vehicle_in_queue headway front rest ≡ last front rest)
        × NoGaps headway front.v_id front rest)
      ⊎ BeforeLastGap headway front.v_id
          (front ∷ rest)
          (get_last_vehicle_in_queue headway front rest)
unfolding get_last_vehicle_in_queue
get_last_vehicle_in_queue-cases headway front rest =
    elim (before_gap-cases headway front.v_id front none rest) [
      | inl (none_found, no_gaps) ↦ inl (rw (none_found, get_last_vehicle_in_queue) refl, no_gaps)
      | inr (back, found, split) ↦ inr (rw (found, get_last_vehicle_in_queue) split)
    ]
