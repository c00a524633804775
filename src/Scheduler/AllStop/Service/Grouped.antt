-- ===== src/Scheduler/AllStop/Service/Grouped.antt =====
-- all_stop_vehicle_scheduler.cpp, schedule_vehicles: which vehicles are put with the departing ones.
use carma_streets.Base.{
  ◌≡◌, refl, ◌⊎◌, inl, inr, List, [], ◌∷◌, ◌++◌, All, All-append, All-map, Any, true, ◌||◌,
  Bool-cases, arith,
}
use text.Mathlib.Text.{◌==◌ as str_eq}
use carma_streets.Vehicles.{Vehicle, VehicleState, entering, ready, departing, leaving, not_defined}
use carma_streets.Vehicles.VehicleList.{VehicleMap}
use carma_streets.Scheduler.AllStop.{
  is_rdv_previously_granted_access, remove_rdv_previously_granted_access,
}
use carma_streets.Scheduler.AllStop.Service.{Groups, group_as, group_vehicle, group_vehicles}

module _ {F : Type 0} where
  -- The vehicle departs, or it is ready and was granted access before.
  abbrev pub MayDepart : List (Vehicle F) → Vehicle F → Type 0
  MayDepart granted v =
      (v.cur_state ≡ departing)
      ⊎ ((v.cur_state ≡ ready) × (is_rdv_previously_granted_access granted v ≡ true))

  -- The vehicle stands in the map.
  abbrev pub IsIn : VehicleMap F → Vehicle F → Type 0
  IsIn m v = Any (λ e. e.1 ≡ v) m

  -- Whoever is in the first list is in the second.
  abbrev Within : List (Vehicle F) → List (Vehicle F) → Type 0
  Within later granted =
      (v : Vehicle F)
      → is_rdv_previously_granted_access later v ≡ true
      → is_rdv_previously_granted_access granted v ≡ true

  remove_rdv-Within :
      (w : Vehicle F) (granted : List (Vehicle F))
      → Within (remove_rdv_previously_granted_access w granted) granted
  unfolding remove_rdv_previously_granted_access is_rdv_previously_granted_access
  remove_rdv-Within w [] v h = h
  remove_rdv-Within w (g ∷ gs) v h = elim (Bool-cases (str_eq g.id w.id)) [
    | inl found ↦
        let later : is_rdv_previously_granted_access gs v ≡ true =
          rw (found, remove_rdv_previously_granted_access) at h in
        ground arith
    | inr other ↦
        let kept : (str_eq g.id v.id
              || is_rdv_previously_granted_access (remove_rdv_previously_granted_access w gs) v)
            ≡ true =
          rw (other, remove_rdv_previously_granted_access) at h in
        let rest = remove_rdv-Within w gs v in ground arith
  ]

  module _ (granted : List (Vehicle F)) (Q : Vehicle F → Type 0) where
    abbrev Sound : Groups F × List (Vehicle F) → Type 0
    Sound state = Within state.1 granted × All (λ v. MayDepart granted v × Q v) state.0.dvs

    add_dv :
        (v : Vehicle F) (dvs : List (Vehicle F))
        → MayDepart granted v × Q v
        → All (λ v. MayDepart granted v × Q v) dvs
        → All (λ v. MayDepart granted v × Q v) (dvs ++ v ∷ [])
    add_dv v dvs here all = All-append (λ v. MayDepart granted v × Q v) dvs (v ∷ []) all (here, tt)

    group_as-Sound :
        (s : VehicleState) (v : Vehicle F) (state : Groups F × List (Vehicle F))
        → v.cur_state ≡ s
        → Q v
        → Sound state
        → Sound (group_as s v state)
    unfolding group_as
    group_as-Sound departing v (groups, now) eq q (within, all) =
        elim (Bool-cases (is_rdv_previously_granted_access now v)) [
          | inl known ↦
              rw known (
                (λ w h. within w (remove_rdv-Within v now w h)),
                add_dv v groups.dvs (inl eq, q) all,
              )
          | inr new ↦ rw new (within, add_dv v groups.dvs (inl eq, q) all)
        ]
    group_as-Sound ready v (groups, now) eq q (within, all) =
        elim (Bool-cases (is_rdv_previously_granted_access now v)) [
          | inl known ↦ rw known (within, add_dv v groups.dvs (inr (eq, within v known), q) all)
          | inr new ↦ rw new (within, all)
        ]
    group_as-Sound entering v state eq q h = h
    group_as-Sound leaving v state eq q h = h
    group_as-Sound not_defined v state eq q h = h

    pub group_vehicles-Sound :
        (m : VehicleMap F) (state : Groups F × List (Vehicle F))
        → All (λ e. Q e.1) m
        → Sound state
        → Sound (group_vehicles m state)
    unfolding group_vehicles group_vehicle
    group_vehicles-Sound [] state q h = h
    group_vehicles-Sound (e ∷ m) state q h =
        group_vehicles-Sound m (group_vehicle e.1 state) q.1
          (group_as-Sound e.1.cur_state e.1 state refl q.0 h)

  All-IsIn : (m : VehicleMap F) → All (λ e. IsIn m e.1) m
  All-IsIn [] = tt
  All-IsIn (e ∷ m) =
      (inl refl, All-map (λ f. IsIn m f.1) (λ f. IsIn (e ∷ m) f.1) (λ f h. inr h) m (All-IsIn m))

  -- The departing group holds vehicles of the map that may depart.
  pub dvs-MayDepart :
      (m : VehicleMap F) (granted : List (Vehicle F))
      → All
          (λ v. MayDepart granted v × IsIn m v)
          (group_vehicles m (record { dvs = []; rdvs = []; evs = [] }, granted)).0.dvs
  dvs-MayDepart m granted =
      (group_vehicles-Sound granted (IsIn m) m (record { dvs = []; rdvs = []; evs = [] }, granted)
        (All-IsIn m) ((λ v h. h), tt)).1
