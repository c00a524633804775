-- ===== src/SnmpCmd/Schedule/Times.antt =====
-- The queue made from a phase control schedule, and the map of its start times.
use carma_streets.Base.{
  ℕ, suc, ◌≤◌, ◌<◌, ◌≡◌, ◌≢◌, refl, ◌⊎◌, inl, inr, List, [], ◌∷◌, ◌++◌, Bool, true, false, ◌&&◌,
  All, All-append, All-map, Any, arith, ltb, Bool-cases,
}
use carma_streets.SnmpCmd.Commands.{PhaseControlType, PhaseControlCommand, SnmpCmd}
use carma_streets.SnmpCmd.Schedule.{
  TypePhases, TimeCommands, add_command, start_time_map, Values, push_if, end_types, ends_before,
  start_types, is_started, ends_now, start_commands, ends_after, run_starts,
}
use carma_streets.SnmpCmd.Schedule.Order.{end_types-time}

-- A type of the command's starts at its time.
abbrev pub StartsAt : SnmpCmd → TimeCommands → Type 0
StartsAt c starts = Any (λ e. (e.0 ≡ c.start_time) × (is_started c.control_type e.1 ≡ true)) starts

-- Nothing starts at the command's time.
abbrev pub Outside : SnmpCmd → TimeCommands → Type 0
Outside c starts = All (λ e. e.0 ≢ c.start_time) starts

abbrev pub Rising : ℕ → TimeCommands → Type 0
Rising low [] = Unit
Rising low ((time, types) ∷ rest) = (low ≤ time) × Rising (suc time) rest

abbrev pub Fits : ℕ → TimeCommands → SnmpCmd → Type 0
Fits prev starts c = StartsAt c starts ⊎ (Outside c starts × (prev < c.start_time))

add_command-Rising :
    (low time : ℕ) (c : PhaseControlCommand) (m : TimeCommands)
    → low ≤ time
    → Rising low m
    → Rising low (add_command time c m)
unfolding add_command
add_command-Rising low time c [] h a = (h, tt)
add_command-Rising low time c ((other, types) ∷ rest) h a =
    ground (arith, add_command-Rising (suc other) time c rest)

pub start_time_map-Rising :
    (cs : List PhaseControlCommand) (m : TimeCommands) → Rising 0 m → Rising 0 (start_time_map cs m)
unfolding start_time_map
start_time_map-Rising [] m a = a
start_time_map-Rising (c ∷ cs) m a =
    start_time_map-Rising cs _ (add_command-Rising 0 c.command_start_time c m (omega arith) a)

Rising-Outside :
    (low : ℕ) (c : SnmpCmd) (m : TimeCommands) → Rising low m → c.start_time < low → Outside c m
Rising-Outside low c [] a h = tt
Rising-Outside low c ((time, types) ∷ rest) a h =
    ((λ eq. omega arith), Rising-Outside (suc time) c rest a.1 (omega arith))

ends_before-between :
    (start prev : ℕ) (ends : TimeCommands) (v : Values)
    → All (λ c. (prev < c.start_time) × (c.start_time < start)) (ends_before start prev ends v).1
unfolding ends_before
ends_before-between start prev [] v = tt
ends_before-between start prev ((time, types) ∷ rest) v =
    elim (Bool-cases (ltb time start && ltb prev time)) [
      | inl within ↦
          let low : prev < time = ground arith in
          let high : time < start = ground arith in
          rw within (
            All-append (λ c. (prev < c.start_time) × (c.start_time < start))
              (end_types time types v).1 _
              (All-map (λ c. c.start_time ≡ time)
                (λ c. (prev < c.start_time) × (c.start_time < start))
                (λ c e. (omega arith, omega arith)) _ (end_types-time time types v))
              (ends_before-between start prev rest _))
      | inr outside ↦ rw outside (ends_before-between start prev rest v)
    ]

ends_after-later :
    (start : ℕ) (ends : TimeCommands) (v : Values)
    → All (λ c. start < c.start_time) (ends_after start ends v)
unfolding ends_after
ends_after-later start [] v = tt
ends_after-later start ((time, types) ∷ rest) v = elim (Bool-cases (ltb start time)) [
  | inl later ↦
      let high : start < time = ground arith in
      rw later (
        All-append (λ c. start < c.start_time) (end_types time types v).1 _
          (All-map (λ c. c.start_time ≡ time) (λ c. start < c.start_time) (λ c e. omega arith) _
            (end_types-time time types v))
          (ends_after-later start rest _))
  | inr earlier ↦ rw earlier (ends_after-later start rest v)
]

push_if-started :
    (b : Bool) (time : ℕ) (type : PhaseControlType) (types : TypePhases) (v : Values)
    (cs : List SnmpCmd)
    → is_started type types ≡ b
    → All (λ c. (time ≡ c.start_time) × (is_started c.control_type types ≡ true)) cs
    → All
        (λ c. (time ≡ c.start_time) × (is_started c.control_type types ≡ true))
        (push_if b time type v cs)
push_if-started true time type types v cs e h = ((refl, e), h)
push_if-started false time type types v cs e h = h

start_commands-started :
    (time : ℕ) (types : TypePhases) (v : Values)
    → All
        (λ c. (time ≡ c.start_time) × (is_started c.control_type types ≡ true))
        (start_commands time types v)
unfolding start_commands
start_commands-started time types v = search (push_if-started, tt) depth 16

pub run_starts-Fits :
    (prev : ℕ) (starts ends : TimeCommands) (v : Values)
    → Rising prev starts
    → All (Fits prev starts) (run_starts prev starts ends v)
unfolding run_starts
run_starts-Fits prev [] ends v a =
    All-map (λ c. prev < c.start_time) (Fits prev []) (λ c h. inr (tt, h)) _
      (ends_after-later prev ends v)
run_starts-Fits prev ((start, types) ∷ rest) ends v a =
    let before : Values × List SnmpCmd = ends_before start prev ends v in
    let values : Values = ends_now start ends (start_types types before.0) in
    All-append (Fits prev ((start, types) ∷ rest)) before.1
      (start_commands start types values ++ run_starts start rest ends values)
      (All-map (λ c. (prev < c.start_time) × (c.start_time < start))
        (Fits prev ((start, types) ∷ rest))
        (λ c h.
          inr (((λ eq. omega arith), Rising-Outside (suc start) c rest a.1 (omega arith)), h.0))
        before.1 (ends_before-between start prev ends v))
      (All-append (Fits prev ((start, types) ∷ rest)) (start_commands start types values)
        (run_starts start rest ends values)
        (All-map (λ c. (start ≡ c.start_time) × (is_started c.control_type types ≡ true))
          (Fits prev ((start, types) ∷ rest)) (λ c h. inl (inl h)) _
          (start_commands-started start types values))
        (All-map (Fits start rest) (Fits prev ((start, types) ∷ rest)) (λ c h. further c h) _
          (run_starts-Fits start rest ends values
            (later (suc start) start rest (omega arith) a.1))))
  where
    later : (high low : ℕ) (m : TimeCommands) → low ≤ high → Rising high m → Rising low m
    later high low [] h r = tt
    later high low ((time, types) ∷ m) h r = (omega arith, r.1)

    further : (c : SnmpCmd) → Fits start rest c → Fits prev ((start, types) ∷ rest) c
    further c (inl now) = inl (inr now)
    further c (inr (apart, behind)) = inr (((λ eq. omega arith), apart), omega arith)
