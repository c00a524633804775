-- ===== src/Vehicles/VehicleList/Keys.antt =====
-- The vehicle list as a map: keys, and what a purge leaves.
use Prim.Native.String.{String}
use text.Mathlib.Text.{◌==◌ as str_eq}
use text.Mathlib.TextEquality.{eq_iff}
use carma_streets.Base.{
  ℕ, ◌≡◌, ◌≤◌, refl, [], ◌∷◌, false, All, ltb, sub64, ok, err, arith, inl, inr, Bool-cases,
  Option-cases, Result-cases,
}
use carma_streets.Vehicles.{Vehicle}
use carma_streets.Vehicles.VehicleList.{
  VehicleMap, Processor, find_vehicle, add_vehicle, update_vehicle, purge_old_vehicles,
  get_vehicles, take_update, process_update, keep_on_error,
}

module _ {F : Type 0} where
  abbrev Absent : String → VehicleMap F → Type 0
  Absent id m = All (λ e. str_eq e.0 id ≡ false) m

  -- Every vehicle stands under its own id, and no id stands twice.
  abbrev pub IsKeyed : VehicleMap F → Type 0
  IsKeyed [] = Unit
  IsKeyed ((key, v) ∷ m) = (v.id ≡ key) × Absent key m × IsKeyed m

  Absent-purge :
      (id : String) (now timeout : ℕ) (m : VehicleMap F)
      → Absent id m
      → Absent id (purge_old_vehicles now timeout m)
  unfolding purge_old_vehicles
  Absent-purge id now timeout [] h = tt
  Absent-purge id now timeout ((key, v) ∷ m) h =
      elim (Bool-cases (ltb v.cur_time (sub64 now timeout))) [
        | inl old ↦ rw old (Absent-purge id now timeout m h.1)
        | inr new ↦ rw new (h.0, Absent-purge id now timeout m h.1)
      ]

  purge-IsKeyed :
      (now timeout : ℕ) (m : VehicleMap F) → IsKeyed m → IsKeyed (purge_old_vehicles now timeout m)
  unfolding purge_old_vehicles
  purge-IsKeyed now timeout [] h = tt
  purge-IsKeyed now timeout ((key, v) ∷ m) h =
      elim (Bool-cases (ltb v.cur_time (sub64 now timeout))) [
        | inl old ↦ rw old (purge-IsKeyed now timeout m h.2)
        | inr new ↦
            rw new (h.0, Absent-purge key now timeout m h.1, purge-IsKeyed now timeout m h.2)
      ]

  Absent-update :
      (id : String) (new : Vehicle F) (m : VehicleMap F)
      → Absent id m
      → Absent id (update_vehicle new m)
  unfolding update_vehicle
  Absent-update id new [] h = tt
  Absent-update id new ((key, v) ∷ m) h = elim (Bool-cases (str_eq key new.id)) [
    | inl found ↦ rw found h
    | inr other ↦ rw other (h.0, Absent-update id new m h.1)
  ]

  update-IsKeyed : (new : Vehicle F) (m : VehicleMap F) → IsKeyed m → IsKeyed (update_vehicle new m)
  unfolding update_vehicle
  update-IsKeyed new [] h = tt
  update-IsKeyed new ((key, v) ∷ m) h = elim (Bool-cases (str_eq key new.id)) [
    | inl found ↦ rw found (cc ((eq_iff key new.id).0 found), h.1, h.2)
    | inr other ↦ rw other (h.0, Absent-update key new m h.1, update-IsKeyed new m h.2)
  ]

  Absent-add :
      (id : String) (new : Vehicle F) (m : VehicleMap F)
      → Absent id m
      → str_eq new.id id ≡ false
      → Absent id (add_vehicle new m)
  unfolding add_vehicle
  Absent-add id new [] h k = (k, tt)
  Absent-add id new ((key, v) ∷ m) h k = elim (Bool-cases (str_eq key new.id)) [
    | inl found ↦ rw found h
    | inr other ↦ rw other (h.0, Absent-add id new m h.1 k)
  ]

  add-IsKeyed : (new : Vehicle F) (m : VehicleMap F) → IsKeyed m → IsKeyed (add_vehicle new m)
  unfolding add_vehicle
  add-IsKeyed new [] h = (refl, tt, tt)
  add-IsKeyed new ((key, v) ∷ m) h = elim (Bool-cases (str_eq key new.id)) [
    | inl found ↦ rw found h
    | inr other ↦ rw other (
      h.0,
      Absent-add key new m h.1 (ground (arith, eq_iff key new.id, eq_iff new.id key)),
      add-IsKeyed new m h.2,
    )
  ]

  module _ {Update : Type 0} (p : Processor F Update) (blank : Vehicle F) where
    take_update-IsKeyed :
        (update : Update) (id : String) (m out : VehicleMap F)
        → IsKeyed m
        → take_update p blank update id m ≡ ok out
        → IsKeyed out
    unfolding take_update
    take_update-IsKeyed update id m out k h = elim (Option-cases (find_vehicle id m)) [
      | inl missing ↦ elim (Result-cases (p.process_status_intent update blank)) [
        | inl (v, made) ↦
            let same : ok (add_vehicle v m) ≡ ok out = rw (missing, made, take_update) at h in
            let eq : add_vehicle v m ≡ out = cc same in rw (← eq) (add-IsKeyed v m k)
        | inr (x, bad) ↦ let no : err x ≡ ok out = rw (missing, bad, take_update) at h in cc no
      ]
      | inr (old, found) ↦ elim (Result-cases (p.process_status_intent update old)) [
        | inl (v, made) ↦
            let same : ok (update_vehicle v m) ≡ ok out = rw (found, made, take_update) at h in
            let eq : update_vehicle v m ≡ out = cc same in rw (← eq) (update-IsKeyed v m k)
        | inr (x, bad) ↦ let no : err x ≡ ok out = rw (found, bad, take_update) at h in cc no
      ]
    ]

    -- Whatever the processor does with an update, it leaves the vehicle list a map from ids to the
    -- vehicles with these ids: every vehicle stands under its own id, and no id stands twice.
    pub process_update-IsKeyed :
        (now : ℕ) (update : Update) (m : VehicleMap F)
        → IsKeyed m
        → IsKeyed (process_update p blank now update m)
    unfolding process_update keep_on_error
    process_update-IsKeyed now update m k =
        let kept : VehicleMap F = purge_old_vehicles now p.timeout m in
        let keyed = purge-IsKeyed now p.timeout m k in
        elim (Result-cases (p.get_vehicle_id update)) [
          | inr (x, bad) ↦ rw (bad, process_update) keyed
          | inl (id, named) ↦ elim (Result-cases (take_update p blank update id kept)) [
            | inl (out, made) ↦
                rw (named, made, process_update) (take_update-IsKeyed update id kept out keyed made)
            | inr (x, bad) ↦ rw (named, bad, process_update) keyed
          ]
        ]

    -- No vehicle that is handed out is older than the timeout, a difference in uint64_t.
    pub get_vehicles_fresh :
        (now : ℕ) (m : VehicleMap F)
        → All (λ e. sub64 now p.timeout ≤ e.1.cur_time) (get_vehicles p now m)
    unfolding get_vehicles purge_old_vehicles
    get_vehicles_fresh now [] = tt
    get_vehicles_fresh now ((key, v) ∷ m) =
        elim (Bool-cases (ltb v.cur_time (sub64 now p.timeout))) [
          | inl old ↦ rw old (get_vehicles_fresh now m)
          | inr new ↦ rw new (ground arith, get_vehicles_fresh now m)
        ]
