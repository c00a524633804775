-- ===== src/Spat/Intersection/Single.antt =====
-- How many events a movement holds after an update from the controller.
use mathlib.Core.Path.{subst}
use carma_streets.Base.{
  ℕ, ◌≡◌, refl, ◌∙◌, List, [], ◌∷◌, some, final, final-within, final-and_then, All, length, arith,
  Option-cases, Bool-cases, ◌==◌, inl, inr,
}
use carma_streets.Spat.Movement.{MovementPhaseState, MovementEvent, MovementState}
use carma_streets.Spat.Ntcip.{Ntcip1202Ext}
use carma_streets.Spat.Intersection.{
  find_movement, replace_movement, clear_future_movement_events, update_events,
  update_movement_state, update_each, update_movements, current_only, clear_movement,
}

abbrev pub HasCurrentOnly : MovementState → Type 0
HasCurrentOnly m = length m.state_time_speed ≡ 1

pub clear-HasCurrentOnly :
    (garbage : MovementPhaseState) (ms : List MovementState)
    → All HasCurrentOnly (clear_future_movement_events garbage ms)
unfolding clear_future_movement_events clear_movement current_only
clear-HasCurrentOnly garbage [] = tt
clear-HasCurrentOnly garbage (m ∷ ms) = (one m.state_time_speed, clear-HasCurrentOnly garbage ms)
  where
    one : (es : List MovementEvent) → length (current_only garbage es) ≡ 1
    one [] = refl
    one (e ∷ es) = refl

module _ {κ} (P : MovementState → Type κ) where
  pub All-replace_movement :
      (sg : ℕ) (new : MovementState) (ms : List MovementState)
      → P new
      → All P ms
      → All P (replace_movement sg new ms)
  unfolding replace_movement
  All-replace_movement sg new [] p h = tt
  All-replace_movement sg new (m ∷ ms) p h = ground (arith, All-replace_movement sg new ms)

  pub All-find_movement :
      (sg : ℕ) (ms : List MovementState) (m : MovementState)
      → All P ms
      → find_movement sg ms ≡ some m
      → P m
  unfolding find_movement
  All-find_movement sg [] m h e = cc
  All-find_movement sg (x ∷ ms) m h e = elim (Bool-cases (x.signal_group == sg)) [
    | inl hit ↦ let same : x ≡ m = ground arith in subst P same h.0
    | inr miss ↦ All-find_movement sg ms m h.1 (rw miss at e)
  ]

module _ (tenths : ℕ → ℕ → ℕ → ℕ) (now : ℕ) (d : Ntcip1202Ext) where
  length-update_events :
      (phase : ℕ) (es : List MovementEvent)
      → length (final (update_events tenths now d phase es)) ≡ length es
  unfolding update_events
  length-update_events phase [] = refl
  length-update_events phase (e ∷ es) = ground arith

  pub update_movement_state-HasCurrentOnly :
      (sg phase : ℕ) (ms : List MovementState)
      → All HasCurrentOnly ms
      → All HasCurrentOnly (final (update_movement_state tenths now d sg phase ms))
  unfolding update_movement_state
  update_movement_state-HasCurrentOnly sg phase ms h = elim (Option-cases (find_movement sg ms)) [
    | inl e ↦ rw (e, update_movement_state) h
    | inr (m, e) ↦
        let kept : length (final (update_events tenths now d phase m.state_time_speed)) ≡ 1 =
          length-update_events phase m.state_time_speed
          ∙ All-find_movement HasCurrentOnly sg ms m h e in
        rw (e, update_movement_state, final-within)
          (All-replace_movement HasCurrentOnly sg _ ms kept h)
  ]

  update_each-HasCurrentOnly :
      (phases : List (ℕ × ℕ)) (ms : List MovementState)
      → All HasCurrentOnly ms
      → All HasCurrentOnly (final (update_each tenths now d phases ms))
  unfolding update_each
  update_each-HasCurrentOnly [] ms h = h
  update_each-HasCurrentOnly ((phase, sg) ∷ rest) ms h =
      final-and_then (All HasCurrentOnly) (update_movement_state tenths now d sg phase ms)
        (update_each tenths now d rest) (update_movement_state-HasCurrentOnly sg phase ms h)
        (update_each-HasCurrentOnly rest)

  -- After an update from the controller every movement holds exactly its current event, also when
  -- the update ends in an exception half way, and whatever the movements held before.
  pub update_movements-HasCurrentOnly :
      (garbage : MovementPhaseState) (phases : List (ℕ × ℕ)) (ms : List MovementState)
      → All HasCurrentOnly (final (update_movements tenths now garbage d phases ms))
  unfolding update_movements
  update_movements-HasCurrentOnly garbage phases ms =
      update_each-HasCurrentOnly phases _ (clear-HasCurrentOnly garbage ms)
