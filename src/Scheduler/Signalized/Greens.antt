-- ===== src/Scheduler/Signalized/Greens.antt =====
-- The greens of a movement, and when signalized_vehicle_scheduler lets a vehicle enter in one.
use Prim.Native.Nat.{max}
use carma_streets.Base.{
  ℕ, ◌≡◌, ◌≤◌, ◌<◌, inl, inr, refl, ltb, List, [], ◌∷◌, Bool, true, false, ◌&&◌, All, Any, add64,
  sub64, Option, none, some, arith, Bool-cases,
}
use carma_streets.Double.{Double}
use carma_streets.Spat.Time.{get_epoch_start_time, get_epoch_min_end_time}
use carma_streets.Spat.Movement.{MovementEvent, is_green}
use carma_streets.Scheduler.{VehicleSchedule}
use carma_streets.Scheduler.Signalized.{SignalizedScheduler, entering_in_green, first_available}

-- Not before the timestamp, nor the vehicle's own earliest time, nor too close to the vehicle ahead.
abbrev pub AfterPreceding : ℕ → Option VehicleSchedule → ℕ → Type 0
AfterPreceding headway none t = Unit
AfterPreceding headway (some p) t = add64 p.et headway ≤ t

abbrev pub IsAvailable : ℕ → ℕ → Option VehicleSchedule → ℕ → ℕ → Type 0
IsAvailable timestamp headway preceding eet t =
    (timestamp ≤ t) × (eet ≤ t) × AfterPreceding headway preceding t

pub first_available-IsAvailable :
    (timestamp headway : ℕ) (preceding : Option VehicleSchedule) (eet t : ℕ)
    → first_available timestamp headway preceding ≤ t
    → eet ≤ t
    → IsAvailable timestamp headway preceding eet t
unfolding first_available
first_available-IsAvailable timestamp headway none eet t h k = (h, k, tt)
first_available-IsAvailable timestamp headway (some p) eet t h k = (omega arith, k, omega arith)

pub first_available-le :
    (timestamp headway : ℕ) (preceding : Option VehicleSchedule) (eet t : ℕ)
    → IsAvailable timestamp headway preceding eet t
    → first_available timestamp headway preceding ≤ t
unfolding first_available
first_available-le timestamp headway none eet t h = h.0
first_available-le timestamp headway (some p) eet t h =
    let from : timestamp ≤ t = h.0 in let after : add64 p.et headway ≤ t = h.2 in omega arith

module _ {F : Type 0} (d : Double F) (now : ℕ) (scheduler : SignalizedScheduler F) where
  open scheduler use {intersection_info, initial_green_buffer, final_green_buffer}

  -- From the initial buffer of a green to its final buffer.
  abbrev pub MayEnter : ℕ → MovementEvent → Type 0
  MayEnter t e =
      (is_green e.event_state ≡ true)
      × (add64 (get_epoch_start_time now e.timing) initial_green_buffer ≤ t)
      × (t < sub64 (get_epoch_min_end_time now e.timing) final_green_buffer)

  -- Each event's time for entering is over when that of a later event begins.
  abbrev pub InOrder : List MovementEvent → Type 0
  InOrder [] = Unit
  InOrder (e ∷ es) =
      All
        (λ later.
          sub64 (get_epoch_min_end_time now e.timing) final_green_buffer
          ≤ add64 (get_epoch_start_time now later.timing) initial_green_buffer)
        es
      × InOrder es

  abbrev fitting : ℕ → ℕ → MovementEvent → ℕ
  fitting first eet e =
      max first (max eet (add64 (get_epoch_start_time now e.timing) initial_green_buffer))

  abbrev fits : ℕ → ℕ → MovementEvent → Bool
  fits first eet e =
      is_green e.event_state
      && ltb (fitting first eet e) (sub64 (get_epoch_min_end_time now e.timing) final_green_buffer)

  fits-MayEnter :
      (first eet : ℕ) (e : MovementEvent)
      → fits first eet e ≡ true
      → MayEnter (fitting first eet e) e
  fits-MayEnter first eet e h = (ground arith, omega arith, ground arith)

  pub entering_in_green-MayEnter :
      (first eet : ℕ) (es : List MovementEvent) (t : ℕ)
      → entering_in_green d now scheduler first eet es ≡ some t
      → (first ≤ t) × (eet ≤ t) × Any (MayEnter t) es
  unfolding entering_in_green
  entering_in_green-MayEnter first eet [] t h = cc
  entering_in_green-MayEnter first eet (e ∷ es) t h = elim (Bool-cases (fits first eet e)) [
    | inl fit ↦
        let here : some (fitting first eet e) ≡ some t = rw (fit, entering_in_green) at h in
        let eq : fitting first eet e ≡ t = cc here in
        rw (← eq) (omega arith, omega arith, inl (fits-MayEnter first eet e fit))
    | inr not_here ↦
        let rest =
          entering_in_green-MayEnter first eet es t (rw (not_here, entering_in_green) at h) in
        (rest.0, rest.1, inr rest.2)
  ]

  entering_in_green-none :
      (first eet : ℕ) (es : List MovementEvent)
      → entering_in_green d now scheduler first eet es ≡ none
      → All (λ e. fits first eet e ≡ false) es
  unfolding entering_in_green
  entering_in_green-none first eet [] h = tt
  entering_in_green-none first eet (e ∷ es) h = elim (Bool-cases (fits first eet e)) [
    | inl fit ↦
        let bad : some (fitting first eet e) ≡ none = rw (fit, entering_in_green) at h in cc bad
    | inr not_here ↦
        (not_here, entering_in_green-none first eet es (rw (not_here, entering_in_green) at h))
  ]

  -- A time at which the vehicle may enter in a green shows that it fits there.
  MayEnter-fits :
      (first eet t : ℕ) (e : MovementEvent)
      → first ≤ t
      → eet ≤ t
      → MayEnter t e
      → (fits first eet e ≡ true) × (fitting first eet e ≤ t)
  MayEnter-fits first eet t e h k allowed =
      let from = allowed.1 in
      let until = allowed.2 in
      let least : fitting first eet e ≤ t = omega arith in
      let before : ltb (fitting first eet e)
            (sub64 (get_epoch_min_end_time now e.timing) final_green_buffer)
          ≡ true =
        ground arith in
      (rw (allowed.0, before) refl, least)

  later_than :
      (bound t : ℕ) (es : List MovementEvent)
      → All (λ e. bound ≤ add64 (get_epoch_start_time now e.timing) initial_green_buffer) es
      → Any (MayEnter t) es
      → bound ≤ t
  later_than bound t [] h k = absurd k
  later_than bound t (e ∷ es) h (inl here) = let from = here.1 in let bounded = h.0 in omega arith
  later_than bound t (e ∷ es) h (inr later) = later_than bound t es h.1 later

  pub entering_in_green-least :
      (first eet t : ℕ) (es : List MovementEvent)
      → InOrder es
      → first ≤ t
      → eet ≤ t
      → Any (MayEnter t) es
      → (least : ℕ) × (entering_in_green d now scheduler first eet es ≡ some least) × (least ≤ t)
  unfolding entering_in_green
  entering_in_green-least first eet t [] order h k any = absurd any
  entering_in_green-least first eet t (e ∷ es) order h k any =
      elim (Bool-cases (fits first eet e)) [
        | inl fit ↦ elim any [
          | inl here ↦ (fitting first eet e, rw fit refl, (MayEnter-fits first eet t e h k here).1)
          | inr later ↦
              let over =
                later_than (sub64 (get_epoch_min_end_time now e.timing) final_green_buffer) t es
                  order.0 later in
              let before = (fits-MayEnter first eet e fit).2 in
              (fitting first eet e, rw fit refl, omega arith)
        ]
        | inr not_here ↦ elim any [
          | inl here ↦ cc ((MayEnter-fits first eet t e h k here).0)
          | inr later ↦
              let rest = entering_in_green-least first eet t es order.1 h k later in
              (rest.0, rw not_here rest.1, rest.2)
        ]
      ]
