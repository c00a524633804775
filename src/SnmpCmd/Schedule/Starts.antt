-- ===== src/SnmpCmd/Schedule/Starts.antt =====
-- The queue made from a phase control schedule at the times at which commands of the schedule start.
use carma_streets.Base.{
  ℕ, ◌==◌, ◌≡◌, ◌≢◌, refl, sym, ◌∙◌, ◌⊎◌, inl, inr, List, [], ◌∷◌, true, false, All, All-map, Any,
  arith, ltb, Bool-cases,
}
use carma_streets.SnmpCmd.Commands.{
  PhaseControlType, call_veh, call_ped, forceoff, hold_veh, omit_veh, omit_ped, CommandType,
  code_of, to_phase_control_type, PhaseControlCommand, SnmpCmd,
}
use carma_streets.SnmpCmd.Schedule.{
  TypePhases, TimeCommands, add_type_phase, add_command, start_time_map, end_time_map, no_values,
  same_type, is_started, run_starts, create_snmp_cmds_by_phase_control_schedule,
}
use carma_streets.SnmpCmd.Schedule.Times.{
  StartsAt, Outside, Fits, start_time_map-Rising, run_starts-Fits,
}

same_type-eq : (a b : PhaseControlType) → same_type a b ≡ true → a ≡ b
same_type-eq call_veh call_veh h = refl
same_type-eq call_veh call_ped h = cc h
same_type-eq call_veh forceoff h = cc h
same_type-eq call_veh hold_veh h = cc h
same_type-eq call_veh omit_veh h = cc h
same_type-eq call_veh omit_ped h = cc h
same_type-eq call_ped call_veh h = cc h
same_type-eq call_ped call_ped h = refl
same_type-eq call_ped forceoff h = cc h
same_type-eq call_ped hold_veh h = cc h
same_type-eq call_ped omit_veh h = cc h
same_type-eq call_ped omit_ped h = cc h
same_type-eq forceoff call_veh h = cc h
same_type-eq forceoff call_ped h = cc h
same_type-eq forceoff forceoff h = refl
same_type-eq forceoff hold_veh h = cc h
same_type-eq forceoff omit_veh h = cc h
same_type-eq forceoff omit_ped h = cc h
same_type-eq hold_veh call_veh h = cc h
same_type-eq hold_veh call_ped h = cc h
same_type-eq hold_veh forceoff h = cc h
same_type-eq hold_veh hold_veh h = refl
same_type-eq hold_veh omit_veh h = cc h
same_type-eq hold_veh omit_ped h = cc h
same_type-eq omit_veh call_veh h = cc h
same_type-eq omit_veh call_ped h = cc h
same_type-eq omit_veh forceoff h = cc h
same_type-eq omit_veh hold_veh h = cc h
same_type-eq omit_veh omit_veh h = refl
same_type-eq omit_veh omit_ped h = cc h
same_type-eq omit_ped call_veh h = cc h
same_type-eq omit_ped call_ped h = cc h
same_type-eq omit_ped forceoff h = cc h
same_type-eq omit_ped hold_veh h = cc h
same_type-eq omit_ped omit_veh h = cc h
same_type-eq omit_ped omit_ped h = refl

add_type_phase-started :
    (k : PhaseControlType) (type : CommandType) (phase : ℕ) (types : TypePhases)
    → is_started k (add_type_phase type phase types) ≡ true
    → (is_started k types ≡ true) ⊎ (to_phase_control_type type ≡ k)
unfolding add_type_phase is_started
add_type_phase-started k type phase [] h =
    elim (Bool-cases (same_type k (to_phase_control_type type))) [
      | inl same ↦ inr (sym (same_type-eq k (to_phase_control_type type) same))
      | inr other ↦ let no : false ≡ true = rw other at h in cc no
    ]
add_type_phase-started k type phase ((other, phases) ∷ rest) h =
    elim (Bool-cases (code_of type == code_of other)) [
      | inl here ↦ inl (rw (here, is_started) at h)
      | inr there ↦ elim (Bool-cases (ltb (code_of type) (code_of other))) [
        | inl before ↦ elim (Bool-cases (same_type k (to_phase_control_type type))) [
          | inl same ↦ inr (sym (same_type-eq k (to_phase_control_type type) same))
          | inr differs ↦ inl (rw (there, before, is_started, differs) at h)
        ]
        | inr behind ↦ elim (Bool-cases (same_type k (to_phase_control_type other))) [
          | inl same ↦ inl (rw same refl)
          | inr differs ↦ rw differs (
              add_type_phase-started k type phase rest
                (rw (there, behind, is_started, differs) at h))
        ]
      ]
    ]

-- The command of the schedule starts at the command's time and is of its type.
abbrev pub Starts : SnmpCmd → PhaseControlCommand → Type 0
Starts c s =
    (s.command_start_time ≡ c.start_time) × (to_phase_control_type s.command_type ≡ c.control_type)

one_type-started :
    (k : PhaseControlType) (type : CommandType) (phase : ℕ)
    → is_started k ((type, phase ∷ []) ∷ []) ≡ true
    → to_phase_control_type type ≡ k
unfolding is_started
one_type-started k type phase h = elim (Bool-cases (same_type k (to_phase_control_type type))) [
  | inl same ↦ sym (same_type-eq k (to_phase_control_type type) same)
  | inr other ↦ let no : false ≡ true = rw other at h in cc no
]

add_command-StartsAt :
    (c : SnmpCmd) (s : PhaseControlCommand) (m : TimeCommands)
    → StartsAt c (add_command s.command_start_time s m)
    → StartsAt c m ⊎ Starts c s
unfolding add_command is_started
add_command-StartsAt c s [] (inl (at, started)) =
    inr (at, one_type-started c.control_type s.command_type s.command_phase started)
add_command-StartsAt c s [] (inr none_there) = elim none_there [ ]
add_command-StartsAt c s ((time, types) ∷ rest) h =
    elim (Bool-cases (s.command_start_time == time)) [
      | inl here ↦ elim (rw here at h) [
        | inr later ↦ inl (inr later)
        | inl (at, started) ↦
            elim (add_type_phase-started c.control_type s.command_type s.command_phase types
              started) [
                | inl before ↦ inl (inl (at, before))
                | inr new ↦
                    let same : s.command_start_time ≡ time = ground arith in inr (same ∙ at, new)
              ]
      ]
      | inr there ↦ elim (Bool-cases (ltb s.command_start_time time)) [
        | inl before ↦ elim (rw (there, before) at h) [
          | inr later ↦ inl later
          | inl (at, started) ↦
              inr (at, one_type-started c.control_type s.command_type s.command_phase started)
        ]
        | inr behind ↦ elim (rw (there, behind) at h) [
          | inl now ↦ inl (inl now)
          | inr later ↦ elim (add_command-StartsAt c s rest later) [
            | inl old ↦ inl (inr old)
            | inr new ↦ inr new
          ]
        ]
      ]
    ]

start_time_map-StartsAt :
    (c : SnmpCmd) (commands : List PhaseControlCommand) (m : TimeCommands)
    → StartsAt c (start_time_map commands m)
    → StartsAt c m ⊎ Any (Starts c) commands
unfolding start_time_map
start_time_map-StartsAt c [] m h = inl h
start_time_map-StartsAt c (s ∷ commands) m h =
    elim (start_time_map-StartsAt c commands (add_command s.command_start_time s m) h) [
      | inr later ↦ inr (inr later)
      | inl now ↦ elim (add_command-StartsAt c s m now) [
        | inl old ↦ inl old
        | inr new ↦ inr (inl new)
      ]
    ]

add_command-Outside :
    (c : SnmpCmd) (s : PhaseControlCommand) (m : TimeCommands)
    → Outside c (add_command s.command_start_time s m)
    → Outside c m × (s.command_start_time ≢ c.start_time)
unfolding add_command
add_command-Outside c s [] h = (tt, h.0)
add_command-Outside c s ((time, types) ∷ rest) h =
    elim (Bool-cases (s.command_start_time == time)) [
      | inl here ↦
          let same : s.command_start_time ≡ time = ground arith in
          let all = rw here at h in (all, λ eq. all.0 (sym same ∙ eq))
      | inr there ↦ elim (Bool-cases (ltb s.command_start_time time)) [
        | inl before ↦ let all = rw (there, before) at h in (all.1, all.0)
        | inr behind ↦
            let all = rw (there, behind) at h in
            let later = add_command-Outside c s rest all.1 in ((all.0, later.0), later.1)
      ]
    ]

start_time_map-Outside :
    (c : SnmpCmd) (commands : List PhaseControlCommand) (m : TimeCommands)
    → Outside c (start_time_map commands m)
    → Outside c m × All (λ s. s.command_start_time ≢ c.start_time) commands
unfolding start_time_map
start_time_map-Outside c [] m h = (h, tt)
start_time_map-Outside c (s ∷ commands) m h =
    let later = start_time_map-Outside c commands (add_command s.command_start_time s m) h in
    let now = add_command-Outside c s m later.0 in (now.0, (now.1, later.1))

-- Whatever the schedule holds, each command of its queue either has a time at which no command of the
-- schedule starts, or is of the type of one that starts at just that time. So for a type that ends at
-- a time at which only commands of other types start, nothing is sent at that time.
pub schedule-Starts :
    (commands : List PhaseControlCommand)
    → All
        (λ c. All (λ s. s.command_start_time ≢ c.start_time) commands ⊎ Any (Starts c) commands)
        (create_snmp_cmds_by_phase_control_schedule commands)
unfolding create_snmp_cmds_by_phase_control_schedule
schedule-Starts commands =
    All-map (Fits 0 (start_time_map commands []))
      (λ c. All (λ s. s.command_start_time ≢ c.start_time) commands ⊎ Any (Starts c) commands)
      (λ c h. back c h)
      (run_starts 0 (start_time_map commands []) (end_time_map commands []) no_values)
      (run_starts-Fits 0 (start_time_map commands []) (end_time_map commands []) no_values
        (start_time_map-Rising commands [] tt))
  where
    back :
        (c : SnmpCmd)
        → Fits 0 (start_time_map commands []) c
        → All (λ s. s.command_start_time ≢ c.start_time) commands ⊎ Any (Starts c) commands
    back c (inr (apart, later)) = inl (start_time_map-Outside c commands [] apart).1
    back c (inl now) = elim (start_time_map-StartsAt c commands [] now) [
      | inl none_there ↦ elim none_there [ ]
      | inr there ↦ inr there
    ]
