-- ===== src/Scheduler/AllStop/Positions.antt =====
-- all_stop_vehicle_scheduler.cpp: the departure positions of a schedule count on by one.
use carma_streets.Base.{
  ℕ, suc, ◌+◌, ◌<◌, ◌≡◌, refl, List, [], ◌∷◌, ◌++◌, length, All, All-map, some, arith,
}
use carma_streets.Scheduler.AllStop.{AllStopSchedule, last_schedule, next_position}

-- The positions are `from` and those that follow it, each once.
abbrev pub Numbered : ℕ → List AllStopSchedule → Type 0
Numbered from [] = Unit
Numbered from (s ∷ ss) = (s.dp ≡ from) × Numbered (suc from) ss

pub Numbered-append :
    (from : ℕ) (xs ys : List AllStopSchedule)
    → Numbered from xs
    → Numbered (from + length xs) ys
    → Numbered from (xs ++ ys)
Numbered-append from [] ys h k = let eq : from + 0 ≡ from = omega arith in rw eq at k
Numbered-append from (x ∷ xs) ys h k =
    let eq : from + suc (length xs) ≡ suc from + length xs = omega arith in
    (h.0, Numbered-append (suc from) xs ys h.1 (rw eq at k))

pub Numbered-below :
    (from : ℕ) (ss : List AllStopSchedule)
    → Numbered from ss
    → All (λ s. s.dp < from + length ss) ss
Numbered-below from [] h = tt
Numbered-below from (s ∷ ss) h = (
  let here : s.dp ≡ from = h.0 in omega arith,
  All-map (λ t. t.dp < suc from + length ss) (λ t. t.dp < from + suc (length ss))
      (λ t k. omega arith) ss (Numbered-below (suc from) ss h.1),
)

last_schedule-Numbered :
    (from : ℕ) (s : AllStopSchedule) (ss : List AllStopSchedule)
    → Numbered from (s ∷ ss)
    → (t : AllStopSchedule) × (last_schedule (s ∷ ss) ≡ some t) × (t.dp ≡ from + length ss)
unfolding last_schedule
last_schedule-Numbered from s [] h = (s, refl, let here : s.dp ≡ from = h.0 in omega arith)
last_schedule-Numbered from s (u ∷ us) h =
    let rest = last_schedule-Numbered (suc from) u us h.1 in
    let found : last_schedule (u ∷ us) ≡ some rest.0 = rest.1 in
    let at_end : rest.0.dp ≡ suc from + length us = rest.2 in
    (rest.0, rw (found, last_schedule) refl, omega arith)

-- The next position of a schedule that is numbered from 1 is one more than its length.
pub next_position-Numbered :
    (ss : List AllStopSchedule) → Numbered 1 ss → next_position ss ≡ 1 + length ss
unfolding next_position last_schedule
next_position-Numbered [] h = refl
next_position-Numbered (s ∷ ss) h =
    let last_one = last_schedule-Numbered 1 s ss h in
    let at_end : last_one.0.dp ≡ 1 + length ss = last_one.2 in
    rw (last_one.1, next_position) (omega arith)
