-- ===== src/SignalOpt/Queues/Served.antt =====
-- streets_desired_phase_plan_generator.cpp: whom the green for a queue serves.
use Prim.Native.Nat.{min}
use mathlib.Core.Path.{subst}
use carma_streets.Base.{
  ℕ, ◌+◌, ◌*◌, ◌≡◌, ◌≤◌, ◌<◌, ◌⊎◌, inl, inr, ltb, leb, max, List, [], ◌∷◌, ◌++◌, All, ◌&&◌, last,
  add64, sub64, none, some, if◌then◌else◌, Bool-cases, arith,
}
use carma_streets.Double.{Double}
use carma_streets.Scheduler.{VehicleSchedule}
use carma_streets.SignalOpt.{Configuration}
use carma_streets.SignalOpt.Queues.{round_up, get_last_vehicle_in_queue, end_for_queue, green_end}
use carma_streets.SignalOpt.Queues.Bounds.{get_last_vehicle_in_queue-cases}

-- Times and lengths of time for which no sum leaves the 64 bits. 2^50 ms are more than 35,000 years.
abbrev pub IsTime : ℕ → Type 0
IsTime n = n < 1125899906842624

add64-IsTime : (a b : ℕ) → a < 4 * 1125899906842624 → IsTime b → add64 a b ≡ a + b
unfolding add64
add64-IsTime a b h k = omega arith

module _ (P : VehicleSchedule → Type 0) where
  last-All : (s : VehicleSchedule) (ss : List VehicleSchedule) → All P (s ∷ ss) → P (last s ss)
  last-All s [] h = h.0
  last-All s (t ∷ ss) h = last-All t ss h.1

  middle-All :
      (pre : List VehicleSchedule) (s : VehicleSchedule) (post : List VehicleSchedule)
      → All P (pre ++ s ∷ post)
      → P s
  middle-All [] s post h = h.0
  middle-All (x ∷ pre) s post h = middle-All pre s post h.1

  -- The end of the queue is one of its vehicles.
  get_last_vehicle_in_queue-All :
      (headway : ℕ) (front : VehicleSchedule) (rest : List VehicleSchedule)
      → All P (front ∷ rest)
      → P (get_last_vehicle_in_queue headway front rest)
  get_last_vehicle_in_queue-All headway front rest h =
      elim (get_last_vehicle_in_queue-cases headway front rest) [
        | inl (is_last, no_gaps) ↦ rw is_last (last-All front rest h)
        | inr (pre, next, post, split, gap, no_gaps) ↦
            middle-All pre (get_last_vehicle_in_queue headway front rest) (next ∷ post)
              (subst (All P) split h)
      ]

module _ {F : Type 0} (d : Double F) where
  -- `ceil(double(n) / 100.0)` is the quotient rounded up, for numbers whose quotient a double holds
  -- with an error of less than a hundredth.
  abbrev pub RoundsUp : Type 0
  RoundsUp =
      (n : ℕ)
      → IsTime n
      → (n ≤ d.ceil_u64 (d.div (d.of_ℕ n) (d.of_ℕ 100)) * 100)
        × (d.ceil_u64 (d.div (d.of_ℕ n) (d.of_ℕ 100)) * 100 < n + 100)

  module _ (config : Configuration F) (tbd_start : ℕ) where
    open config use {min_green, max_green, et_inaccuracy_buffer, final_green_buffer}

    abbrev pub AreTimes : Type 0
    AreTimes =
        IsTime tbd_start
        × IsTime min_green
        × IsTime max_green
        × IsTime et_inaccuracy_buffer
        × IsTime final_green_buffer

    round_up-least :
        (et : ℕ)
        → RoundsUp
        → IsTime et
        → (et ≤ round_up d config tbd_start et) × (round_up d config tbd_start et < et + 100)
    unfolding round_up
    round_up-least et rounds time =
        let up = rounds et time in
        let c = d.ceil_u64 (d.div (d.of_ℕ et) (d.of_ℕ 100)) in (omega arith, omega arith)

    -- The end that the queue needs: behind the last vehicle, rounded up, or the shortest green.
    end_for_queue-needs :
        (back : VehicleSchedule)
        → RoundsUp
        → AreTimes
        → IsTime back.et
        → (back.et + et_inaccuracy_buffer + final_green_buffer
            ≤ end_for_queue d config tbd_start back)
          × (tbd_start + min_green ≤ end_for_queue d config tbd_start back)
          × ((end_for_queue d config tbd_start back ≡ tbd_start + min_green)
              ⊎ (end_for_queue d config tbd_start back
                  < back.et + 100 + et_inaccuracy_buffer + final_green_buffer))
    unfolding end_for_queue
    end_for_queue-needs back rounds times time =
        let up = round_up-least back.et rounds time in
        let r = round_up d config tbd_start back.et in
        let one : add64 r et_inaccuracy_buffer ≡ r + et_inaccuracy_buffer =
          add64-IsTime r et_inaccuracy_buffer (omega arith) times.3 in
        let two : add64 (r + et_inaccuracy_buffer) final_green_buffer
            ≡ r + et_inaccuracy_buffer + final_green_buffer =
          add64-IsTime (r + et_inaccuracy_buffer) final_green_buffer (omega arith) times.4 in
        let shortest : add64 tbd_start min_green ≡ tbd_start + min_green =
          add64-IsTime tbd_start min_green (omega arith) times.1 in
        rw (end_for_queue, one, two, shortest) (omega arith, omega arith, ground arith)

    -- In a lane whose first vehicle enters no later than the others, where the quotient of a time
    -- and 100 is rounded up, all times and lengths are below 2^50 and the longest green does not end
    -- before a final buffer has passed, the green of a queue ends no later than the longest green,
    -- and no sooner than the shortest one (or the longest, if that is shorter). The first vehicle
    -- enters at the latest when the final buffer begins. Either the last vehicle of the queue does
    -- so too, with the inaccuracy buffer between, and the green is the shortest one or ends less
    -- than 100 ms after what that asks for; or it is the longest green, and ends before that,
    -- counted with the 100 ms, or before the shortest green.
    pub green_end-serves :
        (front : VehicleSchedule) (rest : List VehicleSchedule) (t : ℕ)
        → RoundsUp
        → AreTimes
        → final_green_buffer ≤ tbd_start + max_green
        → All (λ s. (front.et ≤ s.et) × IsTime s.et) (front ∷ rest)
        → green_end d config tbd_start front rest ≡ some t
        → let back = get_last_vehicle_in_queue config.queue_max_time_headway front rest in
          (t ≤ tbd_start + max_green)
          × (min (tbd_start + min_green) (tbd_start + max_green) ≤ t)
          × (front.et + final_green_buffer ≤ t)
          × (((back.et + et_inaccuracy_buffer + final_green_buffer ≤ t)
                × ((t ≡ tbd_start + min_green)
                    ⊎ (t < back.et + 100 + et_inaccuracy_buffer + final_green_buffer)))
              ⊎ ((t ≡ tbd_start + max_green)
                  × (t
                      < max
                          (back.et + 100 + et_inaccuracy_buffer + final_green_buffer)
                          (tbd_start + min_green))))
    unfolding green_end sub64
    green_end-serves front rest t rounds (start, shortest, longest, inaccuracy, final) room lane h =
        let headway = config.queue_max_time_headway in
        let back = get_last_vehicle_in_queue headway front rest in
        let last =
          get_last_vehicle_in_queue-All (λ s. (front.et ≤ s.et) × IsTime s.et) headway front rest
            lane in
        let needed = end_for_queue d config tbd_start back in
        let asks =
          end_for_queue-needs back rounds (start, shortest, longest, inaccuracy, final) last.1 in
        let end_max : add64 tbd_start max_green ≡ tbd_start + max_green =
          add64-IsTime tbd_start max_green (omega arith) longest in
        let out = min needed (tbd_start + max_green) in
        let small = sub64 out final_green_buffer in
        let made : (if ltb out needed && leb small front.et then none else some out) ≡ some t =
          rw (green_end, end_max) at h in
        elim (Bool-cases (ltb out needed)) [
          | inl cut ↦ elim (Bool-cases (leb small front.et)) [
            | inl late ↦ let no : none ≡ some t = rw (cut, late) at made in cc no
            | inr served ↦
                let yes : some out ≡ some t = rw (cut, served) at made in
                let eq : out ≡ t = cc yes in
                let full : out ≡ tbd_start + max_green = ground arith in
                let ahead : front.et < small = ground arith in
                let less : out < needed = ground arith in
                rw (← eq) (omega arith, omega arith, omega arith, inr (full, ground arith))
          ]
          | inr whole ↦
              let yes : some out ≡ some t = rw whole at made in
              let eq : out ≡ t = cc yes in
              let full : out ≡ needed = ground arith in
              rw (← eq, full) (ground arith, ground arith, ground arith, inl (asks.0, asks.2))
        ]
