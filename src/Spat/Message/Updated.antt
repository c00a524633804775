-- ===== src/Spat/Message/Updated.antt =====
-- spat.cpp: what the message holds after it was initialised and updated from the controller.
use carma_streets.Base.{
  ℕ, ◌≡◌, refl, List, ◌∷◌, map, All, Distinct, Bool, some, inl, inr, Bool-cases, List-cases,
  Outcome-cases, done, thrown, and_then, and_then-eq-done, not_initialized, no_intersection,
}
use carma_streets.Spat.Movement.{MovementPhaseState}
use carma_streets.Spat.Ntcip.{Ntcip1202Ext, get_timestamp_seconds_of_day}
use carma_streets.Spat.Intersection.{IntersectionState, update_movements, reported_state}
use carma_streets.Spat.Intersection.Reported.{shown, update_movements-shown}
use carma_streets.Spat.Message.{
  SpatMessage, stamp_ntcip, stamp_local, set_timestamp, is_uninitialized, update_intersection_state,
  update,
}

module _ (tenths : ℕ → ℕ → ℕ → ℕ) (now day_of_year : ℕ) (garbage : MovementPhaseState)
    (d : Ntcip1202Ext) where
  -- The front intersection shows what the block reports, under the minute of the message.
  abbrev pub IsCurrent : List (ℕ × ℕ) → SpatMessage → Type 0
  IsCurrent phases m =
      (i : IntersectionState) × (is : List IntersectionState) × (m.intersections ≡ i ∷ is)
      × (m.timestamp ≡ i.moy)
      × (i.status ≡ d.spat_intersection_status)
      × (i.revision ≡ 1)
      × All (λ p. shown p.1 i.states ≡ some (reported_state d p.0)) phases

  update_intersection_state-IsCurrent :
      (m out : SpatMessage) (i : IntersectionState) (is : List IntersectionState)
      → m.intersections ≡ i ∷ is
      → m.timestamp ≡ i.moy
      → Distinct (map (λ p. p.1) m.phase_to_signal_group)
      → update_intersection_state tenths now day_of_year garbage d m ≡ done out
      → IsCurrent m.phase_to_signal_group out
  unfolding update_intersection_state
  update_intersection_state-IsCurrent m out i is front stamped distinct h =
      elim (Outcome-cases
        (update_movements tenths now garbage d m.phase_to_signal_group i.states)) [
          | inr (x, ms, failed) ↦
              let bad : thrown x (record m { intersections = record i { states = ms } ∷ is })
                  ≡ done out =
                rw (front, failed, update_intersection_state) at h in
              cc bad
          | inl (ms, made) ↦
              let now_i = record i {
                states = ms;
                status = d.spat_intersection_status;
                revision = 1;
              } in
              let same : done (record m { intersections = now_i ∷ is }) ≡ done out =
                rw (front, made, update_intersection_state) at h in
              let eq : record m { intersections = now_i ∷ is } ≡ out = cc same in
              rw (← eq) (
                now_i,
                is,
                refl,
                stamped,
                refl,
                refl,
                update_movements-shown tenths now d garbage m.phase_to_signal_group i.states ms
                    distinct made,
              )
        ]

  set_timestamp-done :
      (stamp : IntersectionState → IntersectionState) (m mid : SpatMessage)
      → set_timestamp stamp m ≡ done mid
      → (i : IntersectionState) × (is : List IntersectionState) × (mid.intersections ≡ i ∷ is)
        × (mid.timestamp ≡ i.moy)
        × (mid.phase_to_signal_group ≡ m.phase_to_signal_group)
  unfolding set_timestamp
  set_timestamp-done stamp m mid h = elim (List-cases m.intersections) [
    | inl empty ↦
        let bad : thrown no_intersection m ≡ done mid = rw (empty, set_timestamp) at h in cc bad
    | inr (i, is, front) ↦
        let same : done (record m { intersections = stamp i ∷ is; timestamp = (stamp i).moy })
            ≡ done mid =
          rw (front, set_timestamp) at h in
        let eq : record m { intersections = stamp i ∷ is; timestamp = (stamp i).moy } ≡ mid =
          cc same in
        rw (← eq) (stamp i, is, refl, refl, refl)
  ]

  stamped-IsCurrent :
      (stamp : IntersectionState → IntersectionState) (m out : SpatMessage)
      → Distinct (map (λ p. p.1) m.phase_to_signal_group)
      → and_then
          (set_timestamp stamp m)
          (update_intersection_state tenths now day_of_year garbage d)
        ≡ done out
      → IsCurrent m.phase_to_signal_group out
  stamped-IsCurrent stamp m out distinct h =
      let (mid, first, later) =
        and_then-eq-done (set_timestamp stamp m)
          (update_intersection_state tenths now day_of_year garbage d) h in
      let (i, is, front, stamped, phases) = set_timestamp-done stamp m mid first in
      rw phases at (
        update_intersection_state-IsCurrent mid out i is front stamped (rw (← phases) at distinct)
          later)

  -- When an update of the message from the controller returns, with either clock, the first
  -- intersection shows for every signal group of the phase map (each named once) the indication that
  -- the status block reports for its phase, with the block's status, and the message has the
  -- intersection's minute of the year.
  pub update-IsCurrent :
      (use_ntcip_timestamp : Bool) (m out : SpatMessage)
      → Distinct (map (λ p. p.1) m.phase_to_signal_group)
      → update tenths now day_of_year garbage d use_ntcip_timestamp m ≡ done out
      → IsCurrent m.phase_to_signal_group out
  unfolding update
  update-IsCurrent use_ntcip_timestamp m out distinct h = elim (Bool-cases (is_uninitialized m)) [
    | inl refused ↦
        let bad : thrown not_initialized m ≡ done out = rw (refused, update) at h in cc bad
    | inr ready ↦ elim (Bool-cases use_ntcip_timestamp) [
      | inl ntcip ↦
          stamped-IsCurrent
            (stamp_ntcip now day_of_year (get_timestamp_seconds_of_day d) d.spat_timestamp_msec) m
            out distinct (rw (ready, ntcip, update) at h)
      | inr streets ↦
          stamped-IsCurrent (stamp_local now day_of_year) m out distinct
            (rw (ready, streets, update) at h)
    ]
  ]
