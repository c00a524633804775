-- ===== src/Scheduler/AllStop/Ready/Options.antt =====
-- all_stop_vehicle_scheduler.cpp: what an option for the ready vehicles holds.
use mathlib.Core.List.{append_assoc, append-nil}
use carma_streets.Base.{
  ℕ, suc, ◌≡◌, refl, sym, ◌∙◌, ◌⊎◌, inl, inr, max, List, [], ◌∷◌, ◌++◌, true, false, Option, none,
  some, Option-cases, Bool-cases, ok, err, Result-cases, arith,
}
use carma_streets.Double.{Double}
use carma_streets.Vehicles.{Vehicle}
use carma_streets.Scheduler.{LaneletInfo, get_link_lanelet_info}
use carma_streets.Scheduler.AllStop.{
  AllStopSchedule, AllStopScheduler, last_schedule, get_latest_conflicting,
}
use carma_streets.Scheduler.AllStop.Conflicts.{
  ClearOf, NoConflict, ClearOf-later, NoConflict-ClearOf, get_latest_conflicting-some,
  get_latest_conflicting-none,
}
use carma_streets.Scheduler.AllStop.Ready.{
  ready_schedule, place_ready, is_flexible, consider_departure_position_permutation,
}

-- The vehicle before, if there is one, has access.
abbrev pub MayFollow : Option AllStopSchedule → Type 0
MayFollow none = Unit
MayFollow (some s) = s.access ≡ true

module _ {F : Type 0} where
  -- Access is given only behind vehicles with access, and with no conflicting one scheduled before.
  abbrev pub MayEnter : LaneletInfo F → List AllStopSchedule → AllStopSchedule → Type 0
  MayEnter link before s =
      (s.access ≡ false) ⊎ (MayFollow (last_schedule before) × NoConflict link before)

module _ {F : Type 0} (scheduler : AllStopScheduler F) where
  open scheduler use {intersection_info, flexibility_limit}

  -- One schedule for each vehicle, in order, behind those that stand before.
  abbrev pub Placed : ℕ → List AllStopSchedule → List (Vehicle F) → List AllStopSchedule → Type 0
  Placed position before [] [] = Unit
  Placed position before [] (s ∷ ss) = ⊥
  Placed position before (v ∷ vs) [] = ⊥
  Placed position before (v ∷ vs) (s ∷ ss) =
      ((link : LaneletInfo F) × (get_link_lanelet_info intersection_info v ≡ ok link)
        × (s.v_id ≡ v.id)
        × (s.link_id ≡ v.link_id)
        × (s.dp ≡ position)
        × (is_flexible flexibility_limit position v ≡ true)
        × ClearOf link before s.et
        × MayEnter link before s)
      × Placed (suc position) (before ++ s ∷ []) vs ss

module _ {F : Type 0} (d : Double F) (scheduler : AllStopScheduler F) (timestamp : ℕ) where
  open scheduler use {intersection_info, flexibility_limit}

  place_ready-Placed :
      (before : List AllStopSchedule) (position : ℕ) (v : Vehicle F) (link : LaneletInfo F)
      → let s = place_ready d scheduler timestamp before position v link in
        (s.v_id ≡ v.id)
        × (s.link_id ≡ v.link_id)
        × (s.dp ≡ position)
        × ClearOf link before s.et
        × MayEnter link before s
  unfolding place_ready ready_schedule
  place_ready-Placed before position v link =
      elim (Option-cases (get_latest_conflicting link before)) [
        | inl clear ↦
            let apart = get_latest_conflicting-none link before clear in
            elim (Option-cases (last_schedule before)) [
              | inl first ↦
                  rw (clear, first, place_ready)
                    (
                      refl,
                      refl,
                      refl,
                      NoConflict-ClearOf link before timestamp apart,
                      inr (tt, apart),
                    )
              | inr (p, follows) ↦ elim (Bool-cases p.access) [
                | inl open_way ↦
                    rw (clear, follows, open_way, place_ready)
                      (
                        refl,
                        refl,
                        refl,
                        NoConflict-ClearOf link before timestamp apart,
                        inr (refl, apart),
                      )
                | inr waits ↦
                    rw (clear, follows, waits, place_ready)
                      (refl, refl, refl, NoConflict-ClearOf link before p.et apart, inl refl)
              ]
            ]
        | inr (c, conflict) ↦
            let gone = get_latest_conflicting-some link before c conflict in
            elim (Option-cases (last_schedule before)) [
              | inl first ↦ rw (conflict, first, place_ready) (refl, refl, refl, gone, inl refl)
              | inr (p, follows) ↦
                  rw (conflict, follows, place_ready)
                    (
                      refl,
                      refl,
                      refl,
                      ClearOf-later link before c.dt (max c.dt p.et) (omega arith) gone,
                      inl refl,
                    )
            ]
      ]

  -- A valid option holds the schedules from before and one for each vehicle.
  pub consider-Placed :
      (vs : List (Vehicle F)) (before : List AllStopSchedule) (position : ℕ)
      (out : List AllStopSchedule)
      → consider_departure_position_permutation d scheduler timestamp vs before position
        ≡ ok (some out)
      → (new : List AllStopSchedule) × (out ≡ before ++ new)
        × Placed scheduler position before vs new
  unfolding consider_departure_position_permutation
  consider-Placed [] before position out h =
      let eq : before ≡ out = cc h in ([], rw (append-nil before) (sym eq), tt)
  consider-Placed (v ∷ vs) before position out h =
      elim (Bool-cases (is_flexible flexibility_limit position v)) [
        | inr far ↦
            let bad : ok none ≡ ok (some out) =
              rw (far, consider_departure_position_permutation) at h in
            cc bad
        | inl near ↦ elim (Result-cases (get_link_lanelet_info intersection_info v)) [
          | inr (x, missing) ↦
              let bad : err x ≡ ok (some out) =
                rw (near, missing, consider_departure_position_permutation) at h in
              cc bad
          | inl (link, found) ↦
              let s = place_ready d scheduler timestamp before position v link in
              let rest =
                consider-Placed vs (before ++ s ∷ []) (suc position) out
                  (rw (near, found, consider_departure_position_permutation) at h) in
              let here = place_ready-Placed before position v link in
              (
                s ∷ rest.0,
                rest.1 ∙ append_assoc before (s ∷ []) rest.0,
                ((link, found, here.0, here.1, here.2, near, here.3, here.4), rest.2),
              )
        ]
      ]
