-- ===== src/Scheduler/AllStop/Queues/Lanes.antt =====
-- all_stop_vehicle_scheduler.cpp, schedule_evs: the map from lanes to their vehicles.
use mathlib.Core.List.Permᴰ
use mathlib.Core.List.{Permᴰ}
use carma_streets.Base.{
  ℕ, suc, ◌==◌, ◌≡◌, refl, inl, inr, List, [], ◌∷◌, ◌++◌, All, Any, elem, Distinct, true, false,
  ◌||◌, insert, Bool-cases, List-cases, arith,
}
use carma_streets.Vehicles.{Vehicle}
use carma_streets.Scheduler.{LaneletInfo}
use carma_streets.Scheduler.Signalized.{vehicles_in_lane}
use carma_streets.Scheduler.AllStop.Queues.{
  Queues, vehicle_to_be_scheduled_next, pop_vehicle, waiting,
}

module _ {F : Type 0} where
  -- A queue's vehicles are those of its lane.
  abbrev pub OfLane : ℕ × (Vehicle F × List (Vehicle F)) → Type 0
  OfLane (lane, (v, vs)) = (v.entry_lane_id ≡ lane) × All (λ u. u.entry_lane_id ≡ lane) vs

  abbrev pub lanes_of : Queues F → List ℕ
  lanes_of [] = []
  lanes_of ((lane, q) ∷ queues) = lane ∷ lanes_of queues

  -- The lanes are different, and each has its own vehicles.
  abbrev pub IsSorted : Queues F → Type 0
  IsSorted queues = Distinct (lanes_of queues) × All OfLane queues

  abbrev pub everyone : Queues F → List (Vehicle F)
  everyone [] = []
  everyone ((lane, (v, vs)) ∷ queues) = v ∷ (vs ++ everyone queues)

  -- The first vehicle of one of the lanes is taken.
  pub data Popped : Queues F → Vehicle F → Queues F → Type 0 where
    last_one :
        {lane : ℕ} {v : Vehicle F} {queues : Queues F} → Popped ((lane, (v, [])) ∷ queues) v queues
    next_one :
        {lane : ℕ} {v u : Vehicle F} {us : List (Vehicle F)} {queues : Queues F}
        → Popped ((lane, (v, u ∷ us)) ∷ queues) v ((lane, (u, us)) ∷ queues)
    elsewhere :
        {q : ℕ × (Vehicle F × List (Vehicle F))} {v : Vehicle F} {queues rest : Queues F}
        → Popped queues v rest
        → Popped (q ∷ queues) v (q ∷ rest)

  pub waiting-Popped :
      {queues rest : Queues F} {v : Vehicle F}
      → Popped queues v rest
      → waiting queues ≡ suc (waiting rest)
  unfolding waiting
  waiting-Popped last_one = omega arith
  waiting-Popped next_one = omega arith
  waiting-Popped (elsewhere p) = let rest = waiting-Popped p in omega arith

  pub everyone-Popped :
      {queues rest : Queues F} {v : Vehicle F}
      → Popped queues v rest
      → Permᴰ (v ∷ everyone rest) (everyone queues)
  everyone-Popped (last_one {v = v} {queues = queues}) = Permᴰ.refl (v ∷ everyone queues)
  everyone-Popped (next_one {v = v} {u = u} {us = us} {queues = queues}) =
      Permᴰ.refl (v ∷ u ∷ (us ++ everyone queues))
  everyone-Popped (elsewhere {q = (lane, (u, us))} {v = v} {rest = rest} p) =
      Permᴰ.trans (Permᴰ.symm (Permᴰ.middle v (u ∷ us) (everyone rest)))
        (Permᴰ.append_left (u ∷ us) (everyone-Popped p))

  elem-Popped :
      {queues rest : Queues F} {v : Vehicle F} (k : ℕ)
      → Popped queues v rest
      → elem k (lanes_of queues) ≡ false
      → elem k (lanes_of rest) ≡ false
  elem-Popped k last_one h = ground arith
  elem-Popped k next_one h = h
  elem-Popped k (elsewhere p) h = let rest = elem-Popped k p in ground arith

  pub IsSorted-Popped :
      {queues rest : Queues F} {v : Vehicle F}
      → Popped queues v rest
      → IsSorted queues
      → IsSorted rest
  IsSorted-Popped last_one h = (h.0.1, h.1.1)
  IsSorted-Popped next_one h = (h.0, (h.1.0.1, h.1.1))
  IsSorted-Popped {queues = (lane, q) ∷ queues} (elsewhere p) h =
      let rest = IsSorted-Popped p (h.0.1, h.1.1) in
      ((elem-Popped lane p h.0.0, rest.0), (h.1.0, rest.1))

  -- The queue under a key that a first vehicle has is that vehicle's.
  no_first :
      (P : Vehicle F → Type 0) (lane : ℕ) (queues : Queues F)
      → elem lane (lanes_of queues) ≡ false
      → All OfLane queues
      → Any (λ q. (q.1.0.entry_lane_id ≡ lane) × P q.1.0) queues
      → ⊥
  no_first P lane [] absent all h = elim h [ ]
  no_first P lane ((j, (v, vs)) ∷ queues) absent all (inl h) =
      let a : v.entry_lane_id ≡ lane = h.0 in let b : v.entry_lane_id ≡ j = all.0.0 in ground arith
  no_first P lane ((j, (v, vs)) ∷ queues) absent all (inr h) =
      no_first P lane queues (ground arith) all.1 h

  pub pop_vehicle-Popped :
      (P : Vehicle F → Type 0) (lane : ℕ) (queues : Queues F)
      → IsSorted queues
      → Any (λ q. (q.1.0.entry_lane_id ≡ lane) × P q.1.0) queues
      → (v : Vehicle F) × P v × Popped queues v (pop_vehicle lane queues)
  unfolding pop_vehicle
  pop_vehicle-Popped P lane [] sorted h = elim h [ ]
  pop_vehicle-Popped P lane ((j, (v, [])) ∷ queues) sorted (inl h) =
      let a : v.entry_lane_id ≡ lane = h.0 in
      let b : v.entry_lane_id ≡ j = sorted.1.0.0 in
      let same : (j == lane) ≡ true = ground arith in (v, h.1, rw (same, pop_vehicle) last_one)
  pop_vehicle-Popped P lane ((j, (v, u ∷ us)) ∷ queues) sorted (inl h) =
      let a : v.entry_lane_id ≡ lane = h.0 in
      let b : v.entry_lane_id ≡ j = sorted.1.0.0 in
      let same : (j == lane) ≡ true = ground arith in (v, h.1, rw (same, pop_vehicle) next_one)
  pop_vehicle-Popped P lane ((j, (v, vs)) ∷ queues) sorted (inr h) = elim (Bool-cases (j == lane)) [
    | inl same ↦
        let absent : elem j (lanes_of queues) ≡ false = sorted.0.0 in
        let eq : j ≡ lane = ground arith in
        elim (no_first P lane queues (rw eq at absent) sorted.1.1 h) [ ]
    | inr other ↦
        let rest = pop_vehicle-Popped P lane queues (sorted.0.1, sorted.1.1) h in
        (rest.0, rest.1, rw (other, pop_vehicle) (elsewhere rest.2))
  ]

  vehicles_in_lane-All :
      (lane : ℕ) (vs : List (Vehicle F))
      → All (λ u. u.entry_lane_id ≡ lane) (vehicles_in_lane lane vs)
  unfolding vehicles_in_lane
  vehicles_in_lane-All lane [] = tt
  vehicles_in_lane-All lane (v ∷ vs) = elim (Bool-cases (v.entry_lane_id == lane)) [
    | inl here ↦ rw (here, vehicles_in_lane) (ground arith, vehicles_in_lane-All lane vs)
    | inr away ↦ rw (away, vehicles_in_lane) (vehicles_in_lane-All lane vs)
  ]

  elem-insert :
      (k lane : ℕ) (q : Vehicle F × List (Vehicle F)) (queues : Queues F)
      → elem k (lanes_of (insert lane q queues)) ≡ (elem k (lanes_of queues) || (lane == k))
  elem-insert k lane q [] = ground arith
  elem-insert k lane q ((j, r) ∷ queues) =
      let rest = elem-insert k lane q queues in
      elim (Bool-cases (j == lane)) [
        | inl same ↦ rw same (ground arith)
        | inr other ↦ rw (other, rest) (ground arith)
      ]

  insert-IsSorted :
      (lane : ℕ) (q : Vehicle F × List (Vehicle F)) (queues : Queues F)
      → OfLane (lane, q)
      → IsSorted queues
      → IsSorted (insert lane q queues)
  insert-IsSorted lane q [] h k = ((refl, tt), (h, tt))
  insert-IsSorted lane q ((j, r) ∷ queues) h k = elim (Bool-cases (j == lane)) [
    | inl same ↦ rw same k
    | inr other ↦
        let rest = insert-IsSorted lane q queues h (k.0.1, k.1.1) in
        let absent : elem j (lanes_of queues) ≡ false = k.0.0 in
        let kept : elem j (lanes_of (insert lane q queues)) ≡ false =
          rw (elem-insert j lane q queues, absent) (ground arith) in
        rw other ((kept, rest.0), (k.1.0, rest.1))
  ]

  -- The map that schedule_evs makes is sorted by lanes.
  pub vehicle_to_be_scheduled_next-IsSorted :
      (evs : List (Vehicle F)) (lanelets : List (LaneletInfo F)) (queues : Queues F)
      → IsSorted queues
      → IsSorted (vehicle_to_be_scheduled_next evs lanelets queues)
  unfolding vehicle_to_be_scheduled_next
  vehicle_to_be_scheduled_next-IsSorted evs [] queues h = h
  vehicle_to_be_scheduled_next-IsSorted evs (l ∷ ls) queues h =
      let all = vehicles_in_lane-All l.id evs in
      elim (List-cases (vehicles_in_lane l.id evs)) [
        | inl none_here ↦
            rw (none_here, vehicle_to_be_scheduled_next)
              (vehicle_to_be_scheduled_next-IsSorted evs ls queues h)
        | inr (v, vs, some_here) ↦
            let own : OfLane (l.id, (v, vs)) = rw some_here at all in
            rw (some_here, vehicle_to_be_scheduled_next)
              (vehicle_to_be_scheduled_next-IsSorted evs ls (insert l.id (v, vs) queues)
                (insert-IsSorted l.id (v, vs) queues own h))
      ]
