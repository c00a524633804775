-- ===== src/SnmpCmd/Schedule/Order.antt =====
-- The queue made from a phase control schedule is in the order of its execution times.
use carma_streets.Base.{
  ℕ, ◌≤◌, ◌≡◌, refl, List, [], ◌∷◌, ◌++◌, Bool, true, false, ◌&&◌, All, All-append, All-map, arith,
  ltb, inl, inr, Bool-cases,
}
use carma_streets.SnmpCmd.Commands.{PhaseControlType, PhaseControlCommand, SnmpCmd}
use carma_streets.SnmpCmd.Schedule.{
  TypePhases, TimeCommands, add_command, start_time_map, end_time_map, Values, no_values, push_if,
  end_types, ends_before, start_types, ends_now, start_commands, ends_after, run_starts,
  create_snmp_cmds_by_phase_control_schedule,
}

-- The commands' times do not fall, and the first is not before `low`.
abbrev pub SortedFrom : ℕ → List SnmpCmd → Type 0
SortedFrom low [] = Unit
SortedFrom low (c ∷ cs) = (low ≤ c.start_time) × SortedFrom c.start_time cs

abbrev Ascending : ℕ → TimeCommands → Type 0
Ascending low [] = Unit
Ascending low ((time, types) ∷ rest) = (low ≤ time) × Ascending time rest

abbrev AtLeast : ℕ → List SnmpCmd → Type 0
AtLeast low = All (λ c. low ≤ c.start_time)

abbrev UpTo : ℕ → List SnmpCmd → Type 0
UpTo high = All (λ c. c.start_time ≤ high)

SortedFrom-lower : (a b : ℕ) (cs : List SnmpCmd) → a ≤ b → SortedFrom b cs → SortedFrom a cs
SortedFrom-lower a b [] h s = tt
SortedFrom-lower a b (c ∷ cs) h s = (omega arith, s.1)

SortedFrom-raise : (a b : ℕ) (cs : List SnmpCmd) → SortedFrom a cs → AtLeast b cs → SortedFrom b cs
SortedFrom-raise a b [] s h = tt
SortedFrom-raise a b (c ∷ cs) s h = (h.0, s.1)

SortedFrom-append :
    (low high : ℕ) (xs ys : List SnmpCmd)
    → low ≤ high
    → SortedFrom low xs
    → UpTo high xs
    → SortedFrom high ys
    → SortedFrom low (xs ++ ys)
SortedFrom-append low high [] ys h s u t = SortedFrom-lower low high ys h t
SortedFrom-append low high (x ∷ xs) ys h s u t =
    (s.0, SortedFrom-append x.start_time high xs ys u.0 s.1 u.1 t)

SortedFrom-same :
    (low time : ℕ) (cs : List SnmpCmd)
    → low ≤ time
    → All (λ c. c.start_time ≡ time) cs
    → SortedFrom low cs
SortedFrom-same low time [] h e = tt
SortedFrom-same low time (c ∷ cs) h e =
    (omega arith, SortedFrom-same c.start_time time cs (omega arith) e.1)

UpTo-same : (time : ℕ) (cs : List SnmpCmd) → All (λ c. c.start_time ≡ time) cs → UpTo time cs
UpTo-same time [] e = tt
UpTo-same time (c ∷ cs) e = (omega arith, UpTo-same time cs e.1)

add_command-Ascending :
    (low time : ℕ) (c : PhaseControlCommand) (m : TimeCommands)
    → low ≤ time
    → Ascending low m
    → Ascending low (add_command time c m)
unfolding add_command
add_command-Ascending low time c [] h a = (h, tt)
add_command-Ascending low time c ((other, types) ∷ rest) h a =
    ground (arith, add_command-Ascending other time c rest)

start_time_map-Ascending :
    (cs : List PhaseControlCommand) (m : TimeCommands)
    → Ascending 0 m
    → Ascending 0 (start_time_map cs m)
unfolding start_time_map
start_time_map-Ascending [] m a = a
start_time_map-Ascending (c ∷ cs) m a =
    start_time_map-Ascending cs _ (add_command-Ascending 0 c.command_start_time c m (omega arith) a)

end_time_map-Ascending :
    (cs : List PhaseControlCommand) (m : TimeCommands)
    → Ascending 0 m
    → Ascending 0 (end_time_map cs m)
unfolding end_time_map
end_time_map-Ascending [] m a = a
end_time_map-Ascending (c ∷ cs) m a =
    end_time_map-Ascending cs _ (add_command-Ascending 0 c.command_end_time c m (omega arith) a)

pub end_types-time :
    (time : ℕ) (types : TypePhases) (v : Values)
    → All (λ c. c.start_time ≡ time) (end_types time types v).1
unfolding end_types
end_types-time time [] v = tt
end_types-time time ((type, phases) ∷ rest) v = (refl, end_types-time time rest _)

end_types-UpTo :
    (high time : ℕ) (types : TypePhases) (v : Values)
    → time ≤ high
    → UpTo high (end_types time types v).1
end_types-UpTo high time types v h =
    All-map (λ c. c.start_time ≡ time) (λ c. c.start_time ≤ high) (λ c e. omega arith) _
      (end_types-time time types v)

end_types-AtLeast :
    (low time : ℕ) (types : TypePhases) (v : Values)
    → low ≤ time
    → AtLeast low (end_types time types v).1
end_types-AtLeast low time types v h =
    All-map (λ c. c.start_time ≡ time) (λ c. low ≤ c.start_time) (λ c e. omega arith) _
      (end_types-time time types v)

ends_before-UpTo :
    (start prev : ℕ) (ends : TimeCommands) (v : Values)
    → UpTo start (ends_before start prev ends v).1
unfolding ends_before
ends_before-UpTo start prev [] v = tt
ends_before-UpTo start prev ((time, types) ∷ rest) v =
    elim (Bool-cases (ltb time start && ltb prev time)) [
      | inl within ↦ rw within (
          All-append (λ c. c.start_time ≤ start) (end_types time types v).1 _
            (end_types-UpTo start time types v (ground arith)) (ends_before-UpTo start prev rest _))
      | inr outside ↦ rw outside (ends_before-UpTo start prev rest v)
    ]

ends_before-AtLeast :
    (start prev : ℕ) (ends : TimeCommands) (v : Values)
    → AtLeast prev (ends_before start prev ends v).1
unfolding ends_before
ends_before-AtLeast start prev [] v = tt
ends_before-AtLeast start prev ((time, types) ∷ rest) v =
    elim (Bool-cases (ltb time start && ltb prev time)) [
      | inl within ↦ rw within (
          All-append (λ c. prev ≤ c.start_time) (end_types time types v).1 _
            (end_types-AtLeast prev time types v (ground arith))
            (ends_before-AtLeast start prev rest _))
      | inr outside ↦ rw outside (ends_before-AtLeast start prev rest v)
    ]

ends_before-SortedFrom :
    (start prev low : ℕ) (ends : TimeCommands) (v : Values)
    → Ascending low ends
    → SortedFrom low (ends_before start prev ends v).1
unfolding ends_before
ends_before-SortedFrom start prev low [] v a = tt
ends_before-SortedFrom start prev low ((time, types) ∷ rest) v a =
    elim (Bool-cases (ltb time start && ltb prev time)) [
      | inl within ↦ rw within (
          SortedFrom-append low time (end_types time types v).1 _ a.0
            (SortedFrom-same low time _ a.0 (end_types-time time types v))
            (end_types-UpTo time time types v (omega arith))
            (ends_before-SortedFrom start prev time rest _ a.1))
      | inr outside ↦
          rw outside
            (SortedFrom-lower low time _ a.0 (ends_before-SortedFrom start prev time rest v a.1))
    ]

ends_after-SortedFrom :
    (start low : ℕ) (ends : TimeCommands) (v : Values)
    → Ascending low ends
    → SortedFrom low (ends_after start ends v)
unfolding ends_after
ends_after-SortedFrom start low [] v a = tt
ends_after-SortedFrom start low ((time, types) ∷ rest) v a = elim (Bool-cases (ltb start time)) [
  | inl later ↦ rw later (
      SortedFrom-append low time (end_types time types v).1 _ a.0
        (SortedFrom-same low time _ a.0 (end_types-time time types v))
        (end_types-UpTo time time types v (omega arith))
        (ends_after-SortedFrom start time rest _ a.1))
  | inr earlier ↦
      rw earlier (SortedFrom-lower low time _ a.0 (ends_after-SortedFrom start time rest v a.1))
]

ends_after-AtLeast :
    (start : ℕ) (ends : TimeCommands) (v : Values) → AtLeast start (ends_after start ends v)
unfolding ends_after
ends_after-AtLeast start [] v = tt
ends_after-AtLeast start ((time, types) ∷ rest) v = elim (Bool-cases (ltb start time)) [
  | inl later ↦ rw later (
      All-append (λ c. start ≤ c.start_time) (end_types time types v).1 _
        (end_types-AtLeast start time types v (ground arith)) (ends_after-AtLeast start rest _))
  | inr earlier ↦ rw earlier (ends_after-AtLeast start rest v)
]

push_if-time :
    (b : Bool) (time : ℕ) (type : PhaseControlType) (v : Values) (cs : List SnmpCmd)
    → All (λ c. c.start_time ≡ time) cs
    → All (λ c. c.start_time ≡ time) (push_if b time type v cs)
push_if-time true time type v cs h = (refl, h)
push_if-time false time type v cs h = h

start_commands-time :
    (time : ℕ) (types : TypePhases) (v : Values)
    → All (λ c. c.start_time ≡ time) (start_commands time types v)
unfolding start_commands
start_commands-time time types v = search (push_if-time, tt) depth 9

run_starts-SortedFrom :
    (prev : ℕ) (starts ends : TimeCommands) (v : Values)
    → Ascending prev starts
    → Ascending 0 ends
    → SortedFrom prev (run_starts prev starts ends v)
unfolding run_starts
run_starts-SortedFrom prev [] ends v a b =
    SortedFrom-raise 0 prev _ (ends_after-SortedFrom prev 0 ends v b)
      (ends_after-AtLeast prev ends v)
run_starts-SortedFrom prev ((start, types) ∷ rest) ends v a b =
    let before : Values × List SnmpCmd = ends_before start prev ends v in
    let values : Values = ends_now start ends (start_types types before.0) in
    let now : List SnmpCmd = start_commands start types values in
    SortedFrom-append prev start before.1 (now ++ run_starts start rest ends values) a.0
      (SortedFrom-raise 0 prev before.1 (ends_before-SortedFrom start prev 0 ends v b)
        (ends_before-AtLeast start prev ends v))
      (ends_before-UpTo start prev ends v)
      (SortedFrom-append start start now (run_starts start rest ends values) (omega arith)
        (SortedFrom-same start start now (omega arith) (start_commands-time start types values))
        (UpTo-same start now (start_commands-time start types values))
        (run_starts-SortedFrom start rest ends values a.1 b))

-- Whatever the schedule holds, the execution times of its queue of commands never fall.
pub schedule-SortedFrom :
    (commands : List PhaseControlCommand)
    → SortedFrom 0 (create_snmp_cmds_by_phase_control_schedule commands)
unfolding create_snmp_cmds_by_phase_control_schedule
schedule-SortedFrom commands =
    run_starts-SortedFrom 0 (start_time_map commands []) (end_time_map commands []) no_values
      (start_time_map-Ascending commands [] tt) (end_time_map-Ascending commands [] tt)
