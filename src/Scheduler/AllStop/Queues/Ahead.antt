-- ===== src/Scheduler/AllStop/Queues/Ahead.antt =====
-- all_stop_vehicle_scheduler.cpp, schedule_evs: which schedule a vehicle waits behind, read off the
-- schedules without the map `preceding_veh_map`.
use carma_streets.Base.{
  ℕ, ◌==◌, ◌≤◌, ◌≡◌, refl, sym, ◌∙◌, ap, inl, inr, leb, max, List, [], ◌∷◌, ◌++◌, map, Bool, true,
  false, ◌||◌, ◌&&◌, if◌then◌else◌, Option, none, some, Bool-cases, lookup, insert, elem, add64,
  sub64, ok, arith,
}
use carma_streets.Double.{Double}
use carma_streets.Vehicles.{Vehicle, ready, is_departing, same_vehicle_state}
use carma_streets.Scheduler.{LaneletInfo, get_link_lanelet_info}
use carma_streets.Scheduler.AllStop.{
  AllStopSchedule, AllStopScheduler, estimate_earliest_time_to_stop_bar,
}
use carma_streets.Scheduler.AllStop.Conflicts.{ClearOf}
use carma_streets.Scheduler.AllStop.Queues.{
  assign, is_preceding, first_preceding, preceding_vehicles, stopping_time,
}
use carma_streets.Scheduler.AllStop.Queues.Selection.{Entered}

abbrev first_of : Option AllStopSchedule → Option AllStopSchedule → Option AllStopSchedule
first_of none other = other
first_of (some s) other = some s

-- The last schedule of the lane.
abbrev last_in_lane : ℕ → List AllStopSchedule → Option AllStopSchedule
last_in_lane lane [] = none
last_in_lane lane (s ∷ ss) =
    first_of (last_in_lane lane ss) (if s.entry_lane == lane then some s else none)

-- The first schedule of a ready vehicle, or of a departing one whose entering time is at most `buffer`
-- after `timestamp` (modulo 2^64), in whatever lane.
abbrev first_at_bar : ℕ → ℕ → List AllStopSchedule → Option AllStopSchedule
first_at_bar buffer timestamp [] = none
first_at_bar buffer timestamp (s ∷ ss) =
    if same_vehicle_state s.state ready
      || (is_departing s.state && leb (sub64 s.et timestamp) buffer)
    then some s
    else first_at_bar buffer timestamp ss

lookup-assign :
    (k j : ℕ) (s : AllStopSchedule) (m : List (ℕ × AllStopSchedule))
    → lookup k (assign j s m) ≡ (if j == k then some s else lookup k m)
unfolding assign
lookup-assign k j s [] = refl
lookup-assign k j s ((i, t) ∷ m) = grind (arith, lookup-assign k j s m)

same_or : (o : Option AllStopSchedule) → o ≡ first_of o none
same_or none = refl
same_or (some s) = refl

lookup-insert :
    (k j : ℕ) (s : AllStopSchedule) (m : List (ℕ × AllStopSchedule))
    → lookup k (insert j s m) ≡ first_of (lookup k m) (if j == k then some s else none)
lookup-insert k j s [] = refl
lookup-insert k j s ((i, t) ∷ m) = elim (Bool-cases (i == j)) [
  | inl same ↦ elim (Bool-cases (i == k)) [
    | inl here ↦ rw same (rw here refl)
    | inr there ↦
        let apart : (j == k) ≡ false = ground arith in
        rw same (rw (there, apart) (same_or (lookup k m)))
  ]
  | inr other ↦ elim (Bool-cases (i == k)) [
    | inl here ↦ rw other (rw here refl)
    | inr there ↦ rw other (rw there (lookup-insert k j s m))
  ]
]

last_in_lane-snoc :
    (lane : ℕ) (ss : List AllStopSchedule) (s : AllStopSchedule)
    → last_in_lane lane (ss ++ s ∷ [])
      ≡ (if s.entry_lane == lane then some s else last_in_lane lane ss)
last_in_lane-snoc lane [] s = refl
last_in_lane-snoc lane (t ∷ ss) s = elim (Bool-cases (s.entry_lane == lane)) [
  | inl here ↦ rw (last_in_lane-snoc lane ss s, here) refl
  | inr there ↦ rw (last_in_lane-snoc lane ss s, there) refl
]

both : (o f : Option AllStopSchedule) → first_of (first_of o f) f ≡ first_of o f
both none none = refl
both none (some s) = refl
both (some t) f = refl

either_test :
    (a b : Bool) (o f : Option AllStopSchedule)
    → first_of (first_of o (if a then f else none)) (if b then f else none)
      ≡ first_of o (if a || b then f else none)
either_test true true o f = both o f
either_test true false o f = sym (same_or (first_of o f))
either_test false true o f = ap (λ p. first_of p f) (sym (same_or o))
either_test false false o f = sym (same_or (first_of o none))

set_first :
    (b : Bool) (o : Option AllStopSchedule) (s : AllStopSchedule) (f : Option AllStopSchedule)
    → first_of (first_of o (if b then some s else none)) (if b then f else none)
      ≡ first_of o (if b then some s else none)
set_first true none s f = refl
set_first true (some t) s f = refl
set_first false o s f = sym (same_or (first_of o none))

lookup-first_preceding :
    (buffer timestamp k lane : ℕ) (ss : List AllStopSchedule) (m : List (ℕ × AllStopSchedule))
    → lookup k (first_preceding buffer timestamp lane ss m)
      ≡ first_of (lookup k m) (if lane == k then first_at_bar buffer timestamp ss else none)
unfolding first_preceding is_preceding
lookup-first_preceding buffer timestamp k lane [] m = elim (Bool-cases (lane == k)) [
  | inl here ↦ rw here (same_or (lookup k m))
  | inr there ↦ rw there (same_or (lookup k m))
]
lookup-first_preceding buffer timestamp k lane (s ∷ ss) m =
    elim (Bool-cases (
      same_vehicle_state s.state ready
      || (is_departing s.state && leb (sub64 s.et timestamp) buffer))) [
        | inl taken ↦
            rw
              (
                taken,
                lookup-first_preceding buffer timestamp k lane ss (insert lane s m),
                lookup-insert k lane s m,
              )
              (set_first (lane == k) (lookup k m) s (first_at_bar buffer timestamp ss))
        | inr passed ↦ rw passed (lookup-first_preceding buffer timestamp k lane ss m)
      ]

module _ {F : Type 0} (buffer timestamp : ℕ) (schedules : List AllStopSchedule) where
  lookup-preceding_vehicles :
      (k : ℕ) (lanelets : List (LaneletInfo F)) (m : List (ℕ × AllStopSchedule))
      → lookup k (preceding_vehicles buffer timestamp schedules lanelets m)
        ≡ first_of (lookup k m) (
            if elem k (map (λ l. l.id) lanelets)
            then first_at_bar buffer timestamp schedules
            else none)
  unfolding preceding_vehicles
  lookup-preceding_vehicles k [] m = same_or (lookup k m)
  lookup-preceding_vehicles k (l ∷ ls) m =
      lookup-preceding_vehicles k ls (first_preceding buffer timestamp l.id schedules m)
      ∙ (rw (lookup-first_preceding buffer timestamp k l.id schedules m) (
          either_test (l.id == k) (elem k (map (λ x. x.id) ls)) (lookup k m)
            (first_at_bar buffer timestamp schedules)))

module _ {F : Type 0} (d : Double F) (scheduler : AllStopScheduler F) (timestamp : ℕ)
    (schedules : List AllStopSchedule) where
  open scheduler use {intersection_info, entering_time_buffer}

  -- What a vehicle in the lane waits behind when the schedules `made` are new: the last of them in the
  -- lane; without one, in an entry lane, the first from before of a vehicle that is ready or
  -- departs; else nothing.
  abbrev pub ahead : List AllStopSchedule → ℕ → Option AllStopSchedule
  ahead made lane = first_of (last_in_lane lane made) (
      if elem lane (map (λ l. l.id) intersection_info.entry_lanelets)
      then first_at_bar entering_time_buffer timestamp schedules
      else none)

  -- It stops at its earliest time, or the buffer behind the one ahead.
  abbrev pub stop_behind : Option AllStopSchedule → ℕ → ℕ
  stop_behind none est = est
  stop_behind (some t) est = max est (add64 t.et entering_time_buffer)

  -- The schedule of a vehicle that is to enter, among those before.
  abbrev pub Enters : List AllStopSchedule → ℕ → Vehicle F → AllStopSchedule → Type 0
  Enters made position v s =
      (link : LaneletInfo F) × (get_link_lanelet_info intersection_info v ≡ ok link)
      × (s.v_id ≡ v.id)
      × (s.entry_lane ≡ v.entry_lane_id)
      × (s.link_id ≡ v.link_id)
      × (s.dp ≡ position)
      × (estimate_earliest_time_to_stop_bar d intersection_info v ≡ ok s.est)
      × (s.st ≡ stop_behind (ahead made v.cur_lane_id) s.est)
      × (s.access ≡ false)
      × (s.st ≤ s.et)
      × ClearOf link (schedules ++ made) s.et

  -- The map holds what is ahead in every lane.
  abbrev pub Holds : List (ℕ × AllStopSchedule) → List AllStopSchedule → Type 0
  Holds preceding made = (lane : ℕ) → lookup lane preceding ≡ ahead made lane

  pub preceding_vehicles-Holds :
      Holds
        (preceding_vehicles entering_time_buffer timestamp schedules
          intersection_info.entry_lanelets [])
        []
  preceding_vehicles-Holds lane =
      lookup-preceding_vehicles entering_time_buffer timestamp schedules lane
        intersection_info.entry_lanelets []

  pub assign-Holds :
      (preceding : List (ℕ × AllStopSchedule)) (made : List AllStopSchedule) (s : AllStopSchedule)
      → Holds preceding made
      → Holds (assign s.entry_lane s preceding) (made ++ s ∷ [])
  assign-Holds preceding made s h lane = elim (Bool-cases (s.entry_lane == lane)) [
    | inl here ↦
        rw (lookup-assign lane s.entry_lane s preceding, last_in_lane-snoc lane made s, here) refl
    | inr there ↦
        rw (lookup-assign lane s.entry_lane s preceding, last_in_lane-snoc lane made s, there)
          (h lane)
  ]

  stopping_time-stop_behind :
      (preceding : List (ℕ × AllStopSchedule)) (v : Vehicle F) (est : ℕ)
      (o : Option AllStopSchedule)
      → lookup v.cur_lane_id preceding ≡ o
      → stopping_time d scheduler preceding v est ≡ stop_behind o est
  unfolding stopping_time
  stopping_time-stop_behind preceding v est none h = rw (h, stopping_time) refl
  stopping_time-stop_behind preceding v est (some t) h = rw (h, stopping_time) refl

  pub Entered-Enters :
      (preceding : List (ℕ × AllStopSchedule)) (made : List AllStopSchedule) (position : ℕ)
      (v : Vehicle F) (s : AllStopSchedule)
      → Holds preceding made
      → Entered d scheduler (schedules ++ made) position preceding v s
      → Enters made position v s
  Entered-Enters preceding made position v s holds
        (link, at_link, id, lane, via, dp, known, st, access, later, clear) =
      let stops =
        stopping_time-stop_behind preceding v s.est (ahead made v.cur_lane_id)
          (holds v.cur_lane_id) in
      (link, at_link, id, lane, via, dp, known, st ∙ stops, access, later, clear)
