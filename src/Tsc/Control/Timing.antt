-- ===== src/Tsc/Control/Timing.antt =====
-- The execution times of the queue of a desired phase plan.
use carma_streets.Base.{ℕ, ◌+◌, ◌/◌, ◌^◌, ◌≤◌, ◌<◌, ◌≡◌, List, [], ◌∷◌, done, arith, add64, sub64}
use carma_streets.Plan.{GreenTiming}
use carma_streets.SnmpCmd.Commands.{
  SnmpCmd, create_snmp_command_by_phases, create_snmp_reset_command,
}
use carma_streets.SnmpCmd.Schedule.Order.{SortedFrom}
use carma_streets.Base.{IntMap}
use carma_streets.Tsc.Control.{middle, update_tsc_control_queue}
use carma_streets.Tsc.Control.Queue.{Directs, update_queue-Directs}

-- Times that fit an int64_t, each event starting where the one before ended or later.
abbrev pub InOrder : ℕ → List GreenTiming → Type 0
InOrder low [] = Unit
InOrder low (t ∷ ts) =
    (low ≤ t.start_time)
    × (t.start_time ≤ t.end_time)
    × (t.end_time < 2 ^ 63)
    × InOrder t.end_time ts

-- For an interval of int64_t times the middle is in it, and is its arithmetical middle, rounded down.
pub middle-eq :
    (start finish : ℕ)
    → start ≤ finish
    → finish < 2 ^ 63
    → middle start finish ≡ (start + finish) / 2
unfolding middle add64 sub64
middle-eq start finish h k = omega arith

module _ (groups : IntMap) where
  Directs-SortedFrom :
      (low : ℕ) (t : GreenTiming) (ns : List GreenTiming) (cs : List SnmpCmd)
      → InOrder low (t ∷ ns)
      → Directs groups t ns cs
      → SortedFrom low cs
  unfolding create_snmp_command_by_phases create_snmp_reset_command
  Directs-SortedFrom low t [] [] a h = absurd h
  Directs-SortedFrom low t [] (x ∷ []) a h = absurd h
  Directs-SortedFrom low t [] (x ∷ y ∷ []) (a, b, c, d) (h, k) =
      let m = middle-eq t.start_time t.end_time b c in
      rw (h, k) (omega (arith, m), (omega (arith, m), tt))
  Directs-SortedFrom low t [] (x ∷ y ∷ z ∷ cs) a h = absurd h
  Directs-SortedFrom low t (n ∷ ns) [] a h = absurd h
  Directs-SortedFrom low t (n ∷ ns) (x ∷ []) a h = absurd h
  Directs-SortedFrom low t (n ∷ ns) (x ∷ y ∷ cs) (a, b, c, d) ((ps, _, h), (qs, _, k), l) =
      let m = middle-eq t.start_time t.end_time b c in
      let later = Directs-SortedFrom t.end_time n ns cs d l in
      rw (h, k) (omega (arith, m), (omega (arith, m), later))

  -- For a plan whose first event is not over, whose events are in order and whose times are below
  -- 2^63: when the update returns, the execution times of the queue never fall, and none of them had
  -- passed when the queue was made.
  pub update_queue-SortedFrom :
      (now : ℕ) (first second : GreenTiming) (rest : List GreenTiming) (queue out : List SnmpCmd)
      → InOrder now (record first { start_time = now } ∷ second ∷ rest)
      → update_tsc_control_queue groups now (first ∷ second ∷ rest) queue ≡ done out
      → SortedFrom now out
  update_queue-SortedFrom now first second rest queue out a h =
      Directs-SortedFrom now (record first { start_time = now }) (second ∷ rest) out a
        (update_queue-Directs groups now first second rest queue out h)
