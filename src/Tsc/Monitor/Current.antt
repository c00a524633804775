-- ===== src/Tsc/Monitor/Current.antt =====
-- The plan that the monitor keeps.
use carma_streets.Base.{
  ℕ, ◌≡◌, refl, List, [], ◌∷◌, true, false, Option, none, some, Outcome, done, thrown, within, inl,
  inr, Bool-cases, Result-cases,
}
use carma_streets.Plan.{DesiredPhasePlan, is_empty}
use carma_streets.Spat.Movement.{MovementPhaseState, MovementState, is_green, is_yellow}
use carma_streets.Spat.Projection.{update_spat_with_candidate_dpp}
use carma_streets.Tsc.State.{TscState}
use carma_streets.Tsc.Monitor.{
  Monitor, phases_in, served_after, prune_expired_greens, upcoming_green, update_with_green,
  fix_upcoming_green, fix_upcoming_yell_red, without_plan, with_plan, by_plan,
  update_spat_future_movement_events,
}
use carma_streets.Tsc.Monitor.Prune.{IsCurrent, prune_expired_greens-splits}

-- No plan, or one that is empty or begins with a green that is not over.
abbrev pub KeepsCurrent : ℕ → Option DesiredPhasePlan → Type 0
KeepsCurrent now none = Unit
KeepsCurrent now (some plan) = IsCurrent now plan.desired_phase_plan

-- The stored plan after a call, whichever way it ended.
abbrev pub plan_after : Outcome (Monitor × List MovementState) → Option DesiredPhasePlan
plan_after (done (m, ms)) = m.plan
plan_after (thrown x (m, ms)) = m.plan

module _ (now : ℕ) (garbage : MovementPhaseState) (tsc : TscState) (next_phases : ℕ) where
  final-plan :
      (m : Monitor) (o : Outcome (List MovementState))
      → plan_after (within (λ out. (m, out)) o) ≡ m.plan
  final-plan m (done out) = refl
  final-plan m (thrown x out) = refl

  fix_upcoming_green-plan :
      (m : Monitor) (ms : List MovementState)
      → plan_after (fix_upcoming_green now garbage tsc next_phases m ms) ≡ m.plan
  unfolding fix_upcoming_green
  fix_upcoming_green-plan m ms =
      let served = served_after (phases_in is_yellow ms) m.last_green_served in
      elim (Result-cases (upcoming_green now garbage tsc next_phases served ms)) [
        | inl (t, k) ↦
            rw (k, plan_after)
              (final-plan (record m { last_green_served = served })
                (update_with_green now garbage tsc next_phases t ms))
        | inr (x, k) ↦ rw (k, plan_after) refl
      ]

  without_plan-plan :
      (m : Monitor) (ms : List MovementState)
      → plan_after (without_plan now garbage tsc next_phases m ms) ≡ m.plan
  unfolding without_plan
  without_plan-plan m ms = elim (Bool-cases (is_empty (phases_in is_green ms))) [
    | inl dark ↦ rw (dark, plan_after) (fix_upcoming_green-plan m ms)
    | inr green ↦
        rw (green, plan_after)
          (final-plan
            (record m {
              last_green_served = served_after (phases_in is_green ms) m.last_green_served;
            })
            (fix_upcoming_yell_red now garbage tsc next_phases (phases_in is_green ms) ms))
  ]

  with_plan-KeepsCurrent :
      (m : Monitor) (plan : DesiredPhasePlan) (ms : List MovementState)
      → KeepsCurrent now (plan_after (with_plan now garbage tsc next_phases m plan ms))
  unfolding with_plan
  with_plan-KeepsCurrent m plan ms =
      let (dropped, whole, ended, front) =
        prune_expired_greens-splits now plan.desired_phase_plan in
      let pruned : DesiredPhasePlan = record plan {
        desired_phase_plan = prune_expired_greens now plan.desired_phase_plan;
      } in
      let m' : Monitor = record m { plan = some pruned } in
      elim (Bool-cases (is_empty pruned.desired_phase_plan)) [
        | inl over ↦ rw (over, without_plan-plan m' ms) front
        | inr left ↦
            rw
              (
                left,
                final-plan m' (update_spat_with_candidate_dpp now tsc.config garbage pruned ms),
              )
              front
      ]

  empty-KeepsCurrent :
      (plan : DesiredPhasePlan)
      → is_empty plan.desired_phase_plan ≡ true
      → KeepsCurrent now (some plan)
  empty-KeepsCurrent plan h = empty plan.desired_phase_plan h
    where
      empty : (ts : List _) → is_empty ts ≡ true → IsCurrent now ts
      empty [] h = tt
      empty (t ∷ ts) h = cc

  -- Where the controller's configuration and the movements are there, the monitor is left with no
  -- plan, or with one that is empty or begins with a green that is not over, whether the update
  -- returns or throws, and whatever plan it had.
  pub update_future-KeepsCurrent :
      (m : Monitor) (ms : List MovementState)
      → is_empty tsc.config ≡ false
      → is_empty ms ≡ false
      → KeepsCurrent now
          (plan_after (update_spat_future_movement_events now garbage tsc next_phases m ms))
  unfolding update_spat_future_movement_events by_plan
  update_future-KeepsCurrent m ms c h = rw (c, h) (by_cases m.plan refl)
    where
      by_cases :
          (o : Option DesiredPhasePlan)
          → m.plan ≡ o
          → KeepsCurrent now (plan_after (by_plan now garbage tsc next_phases m o ms))
      by_cases none k = rw (without_plan-plan m ms, k) tt
      by_cases (some plan) k = elim (Bool-cases (is_empty plan.desired_phase_plan)) [
        | inl none_left ↦
            rw (none_left, without_plan-plan m ms, k) (empty-KeepsCurrent plan none_left)
        | inr some_left ↦ rw some_left (with_plan-KeepsCurrent m plan ms)
      ]
