-- ===== src/Tsc/Control/Queue.antt =====
-- The queue of a desired phase plan against a description of the commands it has to hold.
use carma_streets.Base.{
  ℕ, suc, ◌≡◌, refl, List, [], ◌∷◌, ◌++◌, map, true, false, elem, ok, done, thrown,
  and_then-eq-done, inl, inr, Result-cases, Bool-cases, All, length, ◌*◌, arith,
  repeated_signal_group,
}
use mathlib.Core.List.{append_assoc}
use carma_streets.Plan.{GreenTiming}
use carma_streets.SnmpCmd.Commands.{
  PhaseControlType, hold_veh, omit_veh, SnmpCmd, create_snmp_command_by_phases,
  create_snmp_reset_command,
}
use carma_streets.Base.{IntMap}
use carma_streets.Tsc.Snmp.{get_phase_number}
use carma_streets.Tsc.Control.{
  phase_numbers, create_snmp_command_by_signal_groups, groups_to_omit, any_repeated, middle,
  transition, later_transitions, update_tsc_control_queue,
}

module _ (groups : IntMap) where
  -- The command that applies the control to the phases of the signal groups at the time.
  abbrev pub Applies : PhaseControlType → ℕ → List ℕ → SnmpCmd → Type 0
  Applies type time sgs c =
      (phases : List ℕ) × (phase_numbers groups sgs ≡ ok phases)
      × (c ≡ create_snmp_command_by_phases phases type time)

  -- The commands from an event on: half way through it every other group than the next ones is
  -- omitted, at its end the next ones are held, and the last event ends with the two resets.
  abbrev pub Directs : GreenTiming → List GreenTiming → List SnmpCmd → Type 0
  Directs t [] (a ∷ b ∷ []) =
      (a ≡ create_snmp_reset_command omit_veh (middle t.start_time t.end_time))
      × (b ≡ create_snmp_reset_command hold_veh t.end_time)
  Directs t (n ∷ ns) (a ∷ b ∷ cs) =
      Applies omit_veh (middle t.start_time t.end_time) (groups_to_omit groups n.signal_groups) a
      × Applies hold_veh t.end_time n.signal_groups b
      × Directs n ns cs
  Directs _ _ _ = ⊥

  create-Applies :
      (sgs : List ℕ) (type : PhaseControlType) (time : ℕ) (c : SnmpCmd)
      → create_snmp_command_by_signal_groups groups sgs type time ≡ ok c
      → Applies type time sgs c
  unfolding create_snmp_command_by_signal_groups
  create-Applies sgs type time c h = elim (Result-cases (phase_numbers groups sgs)) [
    | inl (phases, k) ↦ (phases, k, cc (rw k at h))
    | inr (x, k) ↦ cc (rw k at h)
  ]

  transition-done :
      (o h : ℕ) (next : List ℕ) (queue out : List SnmpCmd)
      → transition groups o h next queue ≡ done out
      → (a : SnmpCmd) × (b : SnmpCmd) × Applies omit_veh o (groups_to_omit groups next) a
        × Applies hold_veh h next b
        × (out ≡ queue ++ a ∷ b ∷ [])
  unfolding transition
  transition-done o h next queue out e =
      let omits =
        create_snmp_command_by_signal_groups groups (groups_to_omit groups next) omit_veh o in
      let holds = create_snmp_command_by_signal_groups groups next hold_veh h in
      elim (Result-cases omits) [
        | inr (x, k) ↦ let bad : thrown x queue ≡ done out = rw (k) at e in cc bad
        | inl (a, k) ↦ elim (Result-cases holds) [
          | inr (x, l) ↦ let bad : thrown x (queue ++ a ∷ []) ≡ done out = rw (k, l) at e in cc bad
          | inl (b, l) ↦
              let good : done ((queue ++ a ∷ []) ++ b ∷ []) ≡ done out = rw (k, l) at e in
              (
                a,
                b,
                create-Applies _ _ _ _ k,
                create-Applies _ _ _ _ l,
                cc (good, append_assoc queue (a ∷ []) (b ∷ [])),
              )
        ]
      ]

  later_transitions-Directs :
      (t : GreenTiming) (ns : List GreenTiming) (queue out : List SnmpCmd)
      → later_transitions groups t ns queue ≡ done out
      → (cs : List SnmpCmd) × (out ≡ queue ++ cs) × Directs t ns cs
  unfolding later_transitions
  later_transitions-Directs t [] queue out e =
      let omit = create_snmp_reset_command omit_veh (middle t.start_time t.end_time) in
      let hold = create_snmp_reset_command hold_veh t.end_time in
      (omit ∷ hold ∷ [], cc (e, append_assoc queue (omit ∷ []) (hold ∷ [])), (refl, refl))
  later_transitions-Directs t (n ∷ ns) queue out e =
      let (q, moved, later) =
        and_then-eq-done
          (transition groups (middle t.start_time t.end_time) t.end_time n.signal_groups queue) _
          e in
      let (a, b, omits, holds, made) = transition-done _ _ _ queue q moved in
      let (cs, rest, directs) = later_transitions-Directs n ns q out later in
      (a ∷ b ∷ cs, cc (made, rest, append_assoc queue (a ∷ b ∷ []) cs), (omits, holds, directs))

  -- When the update returns for a plan of at least two events, the queue is exactly the program of the
  -- plan, of which the first event counts from the reading of the clock: half way through each event
  -- every signal group that is not in the next one is omitted, at its end the groups of the next one
  -- are held, and the last event is followed by a reset of the omits and one of the hold. What was in
  -- the queue before is gone.
  pub update_queue-Directs :
      (now : ℕ) (first second : GreenTiming) (rest : List GreenTiming) (queue out : List SnmpCmd)
      → update_tsc_control_queue groups now (first ∷ second ∷ rest) queue ≡ done out
      → Directs (record first { start_time = now }) (second ∷ rest) out
  unfolding update_tsc_control_queue
  update_queue-Directs now first second rest queue out e =
      elim (Bool-cases (any_repeated first.signal_groups second.signal_groups)) [
        | inl repeated ↦
            let bad : thrown repeated_signal_group queue ≡ done out = rw repeated at e in cc bad
        | inr fresh ↦
            let (q, moved, later) =
              and_then-eq-done
                (transition groups (middle now first.end_time) first.end_time second.signal_groups
                  [])
                _ (rw fresh at e) in
            let (a, b, omits, holds, made) = transition-done _ _ _ [] q moved in
            let (cs, made', directs) = later_transitions-Directs second rest q out later in
            rw (made', made) (omits, holds, directs)
      ]

  pub Directs-length :
      (t : GreenTiming) (ns : List GreenTiming) (cs : List SnmpCmd)
      → Directs t ns cs
      → length cs ≡ 2 * suc (length ns)
  Directs-length t [] [] h = absurd h
  Directs-length t [] (a ∷ []) h = absurd h
  Directs-length t [] (a ∷ b ∷ []) h = refl
  Directs-length t [] (a ∷ b ∷ c ∷ cs) h = absurd h
  Directs-length t (n ∷ ns) [] h = absurd h
  Directs-length t (n ∷ ns) (a ∷ []) h = absurd h
  Directs-length t (n ∷ ns) (a ∷ b ∷ cs) h = omega (arith, Directs-length n ns cs h.2)

  any_repeated-elem :
      (sg : ℕ) (xs ys : List ℕ) → elem sg xs ≡ true → elem sg ys ≡ true → any_repeated xs ys ≡ true
  unfolding any_repeated
  any_repeated-elem sg [] ys h k = cc
  any_repeated-elem sg (x ∷ xs) ys h k = ground (arith, any_repeated-elem sg xs ys)

  -- A plan whose second event has a signal group of the first is refused, and the queue is the one
  -- from before.
  pub update_queue_refuses :
      (now sg : ℕ) (first second : GreenTiming) (rest : List GreenTiming) (queue : List SnmpCmd)
      → elem sg first.signal_groups ≡ true
      → elem sg second.signal_groups ≡ true
      → update_tsc_control_queue groups now (first ∷ second ∷ rest) queue
        ≡ thrown repeated_signal_group queue
  unfolding update_tsc_control_queue
  update_queue_refuses now sg first second rest queue h k =
      rw (any_repeated-elem sg first.signal_groups second.signal_groups h k) refl

  -- Every signal group has a phase.
  abbrev pub Mapped : List ℕ → Type 0
  Mapped = All (λ sg. (phase : ℕ) × (get_phase_number groups sg ≡ ok phase))

  phase_numbers_total :
      (sgs : List ℕ) → Mapped sgs → (phases : List ℕ) × (phase_numbers groups sgs ≡ ok phases)
  unfolding phase_numbers
  phase_numbers_total [] h = ([], refl)
  phase_numbers_total (sg ∷ sgs) ((phase, k), h) =
      let (phases, l) = phase_numbers_total sgs h in (phase ∷ phases, rw (k, l) refl)

  omit_Mapped :
      (m : IntMap) (event : List ℕ) → Mapped (map (λ e. e.0) m) → Mapped (groups_to_omit m event)
  unfolding groups_to_omit
  omit_Mapped [] event h = tt
  omit_Mapped ((sg, phase) ∷ m) event h = elim (Bool-cases (elem sg event)) [
    | inl found ↦ rw found (omit_Mapped m event h.1)
    | inr other ↦ rw other (h.0, omit_Mapped m event h.1)
  ]

  transition_total :
      (o h : ℕ) (next : List ℕ) (queue : List SnmpCmd)
      → Mapped (map (λ e. e.0) groups)
      → Mapped next
      → (out : List SnmpCmd) × (transition groups o h next queue ≡ done out)
  unfolding transition create_snmp_command_by_signal_groups
  transition_total o h next queue m n =
      let (omits, k) =
        phase_numbers_total (groups_to_omit groups next) (omit_Mapped groups next m) in
      let (holds, l) = phase_numbers_total next n in
      (
        (queue ++ create_snmp_command_by_phases omits omit_veh o ∷ [])
            ++ create_snmp_command_by_phases holds hold_veh h ∷ [],
        rw (k, l) refl,
      )

  later_transitions_total :
      (t : GreenTiming) (ns : List GreenTiming) (queue : List SnmpCmd)
      → Mapped (map (λ e. e.0) groups)
      → All (λ n. Mapped n.signal_groups) ns
      → (out : List SnmpCmd) × (later_transitions groups t ns queue ≡ done out)
  unfolding later_transitions
  later_transitions_total t [] queue m h = (_, refl)
  later_transitions_total t (n ∷ ns) queue m h =
      let (q, k) =
        transition_total (middle t.start_time t.end_time) t.end_time n.signal_groups queue m h.0 in
      let (out, l) = later_transitions_total n ns q m h.1 in (out, rw k l)

  -- Where every signal group of the controller and of the plan has a phase, and the first two events
  -- share no group, the update returns: with two commands for each event, whatever groups the later
  -- events repeat, since the check for repeated groups reads the first two events only.
  pub update_queue_total :
      (now : ℕ) (first second : GreenTiming) (rest : List GreenTiming) (queue : List SnmpCmd)
      → Mapped (map (λ e. e.0) groups)
      → All (λ n. Mapped n.signal_groups) (second ∷ rest)
      → any_repeated first.signal_groups second.signal_groups ≡ false
      → (out : List SnmpCmd) × (update_tsc_control_queue groups now (first ∷ second ∷ rest) queue
          ≡ done out)
        × (length out ≡ 2 * length (first ∷ second ∷ rest))
  unfolding update_tsc_control_queue
  update_queue_total now first second rest queue m h fresh =
      let (q, k) =
        transition_total (middle now first.end_time) first.end_time second.signal_groups [] m h.0 in
      let (out, l) = later_transitions_total second rest q m h.1 in
      let made : update_tsc_control_queue groups now (first ∷ second ∷ rest) queue ≡ done out =
        rw (fresh, k) l in
      (
        out,
        made,
        Directs-length (record first { start_time = now }) (second ∷ rest) out
            (update_queue-Directs now first second rest queue out made),
      )
