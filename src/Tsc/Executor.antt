-- ===== src/Tsc/Executor.antt =====
-- tsc_client_service/src: how the queue of commands is sent to the controller (tsc_service.cpp,
-- control_tsc_phases; control_tsc_state.cpp, run_snmp_cmd_set_request). Another thread can replace the
-- queue while this one sleeps, so each round of the loop is given what it reads: the clock, and the
-- queue after the sleep where it was replaced. The pointers to
-- the controller are set. Times are below 2^63, where `long` is exact.
use carma_streets.Base.{
  ℕ, ◌==◌, ltb, List, [], ◌∷◌, ◌++◌, map, Bool, true, false, ◌&&◌, if◌then◌else◌, Option, none,
  some, Outcome, done, thrown, and_then, command_expired, command_rejected,
}
use carma_streets.SnmpCmd.Commands.{
  PhaseControlType, call_veh, call_ped, forceoff, hold_veh, omit_veh, omit_ped, SnmpCmd,
  create_clear_all_snmp_commands,
}
pub mod Served

-- The objects of the controller that are set.
pub data ControlOid : Type 0 where
  phase_omit_control phase_hold_control phase_pedestrian_omit_control : ControlOid
  phase_forceoff_control phase_pedestrian_call_control phase_vehicle_call_control : ControlOid

abbrev pub oid_of : PhaseControlType → ControlOid
oid_of omit_veh = phase_omit_control
oid_of hold_veh = phase_hold_control
oid_of omit_ped = phase_pedestrian_omit_control
oid_of forceoff = phase_forceoff_control
oid_of call_ped = phase_pedestrian_call_control
oid_of call_veh = phase_vehicle_call_control

abbrev pub type_code : PhaseControlType → ℕ
type_code call_veh = 0
type_code call_ped = 1
type_code forceoff = 2
type_code hold_veh = 3
type_code omit_veh = 4
type_code omit_ped = 5

-- `get_cmd_info` prints these three members.
unfoldable pub same_info : SnmpCmd → SnmpCmd → Bool
same_info a b =
    a.start_time == b.start_time
    && type_code a.control_type == type_code b.control_type
    && a.set_val == b.set_val

abbrev pub SetRequest : Type 0
SetRequest = ControlOid × ℕ

abbrev pub request_of : SnmpCmd → SetRequest
request_of c = (oid_of c.control_type, c.set_val)

pub record Reading : Type 0 where
  pub now : ℕ
  pub replaced : Option (List SnmpCmd)

-- The queue, and the requests that were made.
pub record Control : Type 0 where
  pub queue : List SnmpCmd
  pub sent : List SetRequest

-- `accepts` is the answer of `process_snmp_request`.
module _ (accepts : SetRequest → Bool) where
  unfoldable pub run_snmp_cmd_set_request : SnmpCmd → Bool
  run_snmp_cmd_set_request c = accepts (request_of c)

  -- The commands at the front that have the same time.
  unfoldable pub run_simultaneous : ℕ → List SnmpCmd → List SetRequest → Outcome Control
  run_simultaneous time [] sent = done (record { queue = []; sent = sent })
  run_simultaneous time (c ∷ cs) sent =
      let rest = run_simultaneous time cs (sent ++ request_of c ∷ []) in
      if c.start_time == time
      then (if run_snmp_cmd_set_request c
          then rest
          else thrown command_rejected
              (record { queue = c ∷ cs; sent = sent ++ request_of c ∷ [] }))
      else done (record { queue = c ∷ cs; sent = sent })

  -- After the sleep: nothing is left, the queue was replaced, or the command is due.
  unfoldable pub after_sleep :
      SnmpCmd → List SnmpCmd → List SetRequest → (Control → Outcome Control) → Outcome Control
  after_sleep current [] sent next = done (record { queue = []; sent = sent })
  after_sleep current (c ∷ cs) sent next =
      if same_info c current
      then and_then (run_simultaneous current.start_time (c ∷ cs) sent) next
      else done (record { queue = c ∷ cs; sent = sent })

  abbrev pub queue_seen : Option (List SnmpCmd) → List SnmpCmd → List SnmpCmd
  queue_seen none queue = queue
  queue_seen (some replacement) queue = replacement

  -- One reading for each round.
  unfoldable pub serve : List Reading → Control → Outcome Control
  serve [] s = done s
  serve (r ∷ rs) s = elim s.queue [
    | [] ↦ done s
    | c ∷ cs ↦
        if ltb c.start_time r.now
        then thrown command_expired s
        else after_sleep c (queue_seen r.replaced (c ∷ cs)) s.sent (λ t. serve rs t)
  ]

  -- The answers to the clearing commands are not read.
  unfoldable pub set_tsc_hold_and_omit_forceoff_call : List Reading → Control → Outcome Control
  set_tsc_hold_and_omit_forceoff_call rs s = elim s.queue [
    | [] ↦ done s
    | c ∷ cs ↦
        serve rs (record s { sent = s.sent ++ map request_of (create_clear_all_snmp_commands 0) })
  ]

  -- The handler of the exception removes the front command, if there is one.
  unfoldable pub without_front : Control → Control
  without_front s = elim s.queue [ [] ↦ s | c ∷ cs ↦ record s { queue = cs } ]

  -- The calls of the loop, each with its readings and the queue that the other thread may have set
  -- before it; an exception ends the loop, and the thread.
  unfoldable pub control_tsc_phases :
      List (Option (List SnmpCmd) × List Reading) → Control → Control
  control_tsc_phases [] s = s
  control_tsc_phases ((replaced, rs) ∷ rounds) s =
      elim (set_tsc_hold_and_omit_forceoff_call rs
        (record s { queue = queue_seen replaced s.queue })) [
          | thrown x t ↦ without_front t
          | done t ↦ control_tsc_phases rounds t
        ]
