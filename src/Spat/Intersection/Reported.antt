-- ===== src/Spat/Intersection/Reported.antt =====
-- After an update each movement shows what the controller reports.
use carma_streets.Base.{
  ℕ, ◌≡◌, ◌≢◌, sym, ◌∙◌, ap, List, [], ◌∷◌, map, Option, none, some, ok, done, thrown, no_movement,
  within-eq-done, and_then-eq-done, All, elem, Distinct, false, arith, inl, inr, Option-cases,
  Result-cases, length,
}
use carma_streets.Spat.Movement.{MovementPhaseState, MovementEvent, MovementState}
use carma_streets.Spat.Ntcip.{Ntcip1202Ext}
use carma_streets.Spat.Intersection.{
  find_movement, replace_movement, reported_state, enter_state, set_end_times, update_events,
  update_movement_state, update_each, update_movements,
}
use carma_streets.Spat.Intersection.Single.{
  HasCurrentOnly, All-find_movement, update_movement_state-HasCurrentOnly, clear-HasCurrentOnly,
}
use carma_streets.Spat.Intersection.Store.{
  find_movement-signal_group, find_movement-replace_self, find_movement-replace_ne,
}

abbrev pub front_state : List MovementEvent → Option MovementPhaseState
front_state [] = none
front_state (e ∷ es) = some e.event_state

-- The indication that the message gives for a signal group.
abbrev pub front_of : Option MovementState → Option MovementPhaseState
front_of none = none
front_of (some m) = front_state m.state_time_speed

abbrev pub shown : ℕ → List MovementState → Option MovementPhaseState
shown sg ms = front_of (find_movement sg ms)

module _ (tenths : ℕ → ℕ → ℕ → ℕ) (now : ℕ) (d : Ntcip1202Ext) where
  enter_state-event_state :
      (s : MovementPhaseState) (e : MovementEvent) → (enter_state tenths now s e).event_state ≡ s
  unfolding enter_state
  enter_state-event_state s e = ground arith

  set_end_times-event_state :
      (phase : ℕ) (e out : MovementEvent)
      → set_end_times tenths now d phase e ≡ ok out
      → out.event_state ≡ e.event_state
  unfolding set_end_times
  set_end_times-event_state phase e out h = ground arith

  front_state-update_events :
      (phase : ℕ) (es out : List MovementEvent)
      → length es ≡ 1
      → update_events tenths now d phase es ≡ done out
      → front_state out ≡ some (reported_state d phase)
  unfolding update_events
  front_state-update_events phase [] out f h = absurd (omega arith)
  front_state-update_events phase (e ∷ es) out f h =
      let s = reported_state d phase in
      let entered = enter_state tenths now s e in
      elim (Result-cases (set_end_times tenths now d phase entered)) [
        | inl (e', k) ↦
            let made : done (e' ∷ es) ≡ done out = rw (k, update_events) at h in
            let shape : e' ∷ es ≡ out = cc made in
            ap front_state (sym shape)
            ∙ ap some (set_end_times-event_state phase entered e' k ∙ enter_state-event_state s e)
        | inr (x, k) ↦
            let failed : thrown x (entered ∷ es) ≡ done out = rw (k, update_events) at h in
            cc failed
      ]

  update_movement_state-shown :
      (sg phase : ℕ) (ms out : List MovementState)
      → All HasCurrentOnly ms
      → update_movement_state tenths now d sg phase ms ≡ done out
      → shown sg out ≡ some (reported_state d phase)
  unfolding update_movement_state
  update_movement_state-shown sg phase ms out f h = elim (Option-cases (find_movement sg ms)) [
    | inl e ↦
        let failed : thrown no_movement ms ≡ done out = rw (e, update_movement_state) at h in
        cc failed
    | inr (m, e) ↦
        let (es, k, made) =
          within-eq-done (λ es. replace_movement sg (record m { state_time_speed = es }) ms)
            (update_events tenths now d phase m.state_time_speed)
            (rw (e, update_movement_state) at h) in
        let front =
          front_state-update_events phase m.state_time_speed es
            (All-find_movement HasCurrentOnly sg ms m f e) k in
        ap (shown sg) (sym made)
        ∙ ap front_of (
            find_movement-replace_self sg ms m (record m { state_time_speed = es }) e
              (find_movement-signal_group sg ms m e))
        ∙ front
  ]

  update_movement_state-shown_ne :
      (sg phase other : ℕ) (ms out : List MovementState)
      → other ≢ sg
      → update_movement_state tenths now d sg phase ms ≡ done out
      → shown other out ≡ shown other ms
  unfolding update_movement_state
  update_movement_state-shown_ne sg phase other ms out f h =
      elim (Option-cases (find_movement sg ms)) [
        | inl e ↦
            let failed : thrown no_movement ms ≡ done out = rw (e, update_movement_state) at h in
            cc failed
        | inr (m, e) ↦
            let (es, k, made) =
              within-eq-done (λ es. replace_movement sg (record m { state_time_speed = es }) ms)
                (update_events tenths now d phase m.state_time_speed)
                (rw (e, update_movement_state) at h) in
            ap (shown other) (sym made)
            ∙ ap front_of (
                find_movement-replace_ne sg other ms (record m { state_time_speed = es })
                  (find_movement-signal_group sg ms m e) f)
      ]

  -- Signal groups that no entry of the map names keep what they show.
  update_each-shown_ne :
      (phases : List (ℕ × ℕ)) (other : ℕ) (ms out : List MovementState)
      → elem other (map (λ p. p.1) phases) ≡ false
      → update_each tenths now d phases ms ≡ done out
      → shown other out ≡ shown other ms
  unfolding update_each
  update_each-shown_ne [] other ms out f h = ap (shown other) (cc h)
  update_each-shown_ne ((phase, sg) ∷ rest) other ms out f h =
      let (mid, first, later) =
        and_then-eq-done (update_movement_state tenths now d sg phase ms)
          (update_each tenths now d rest) h in
      update_each-shown_ne rest other mid out (ground arith) later
      ∙ update_movement_state-shown_ne sg phase other ms mid (λ e. ground arith) first

  update_each-shown :
      (phases : List (ℕ × ℕ)) (ms out : List MovementState)
      → Distinct (map (λ p. p.1) phases)
      → All HasCurrentOnly ms
      → update_each tenths now d phases ms ≡ done out
      → All (λ p. shown p.1 out ≡ some (reported_state d p.0)) phases
  unfolding update_each
  update_each-shown [] ms out u f h = tt
  update_each-shown ((phase, sg) ∷ rest) ms out u f h =
      let (mid, first, later) =
        and_then-eq-done (update_movement_state tenths now d sg phase ms)
          (update_each tenths now d rest) h in
      (
        update_each-shown_ne rest sg mid out u.0 later
            ∙ update_movement_state-shown sg phase ms mid f first,
        update_each-shown rest mid out u.1
            (rw first at (update_movement_state-HasCurrentOnly tenths now d sg phase ms f)) later,
      )

  -- When an update from the controller returns, every signal group of the phase map (each named once)
  -- shows the indication that the status block reports for its phase.
  pub update_movements-shown :
      (garbage : MovementPhaseState) (phases : List (ℕ × ℕ)) (ms out : List MovementState)
      → Distinct (map (λ p. p.1) phases)
      → update_movements tenths now garbage d phases ms ≡ done out
      → All (λ p. shown p.1 out ≡ some (reported_state d p.0)) phases
  unfolding update_movements
  update_movements-shown garbage phases ms out u h =
      update_each-shown phases _ out u (clear-HasCurrentOnly garbage ms) h
