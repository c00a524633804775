-- ===== src/Tsc/State/Cycle.antt =====
-- The red duration of a signal group: with green and yellow it makes the cycle of the ring.
use carma_streets.Base.{
  ℕ, ◌+◌, ◌≡◌, refl, List, [], ◌∷◌, ◌++◌, true, false, ◌==◌, ==_iff, elem, Result, ok, err, arith,
  inl, inr, Result-cases,
}
use carma_streets.Base.{IntMap, lookup}
use carma_streets.Tsc.Snmp.{get_signal_group_id}
use carma_streets.Tsc.State.{
  SignalGroupState, StateMap, state_or_empty, red_duration_from, get_red_duration,
}

module _ (phases : IntMap) (states : StateMap) where
  -- The state of the signal group of a phase.
  abbrev pub state_of_group : Result ℕ → SignalGroupState
  state_of_group (ok sg) = state_or_empty (lookup sg states)
  state_of_group (err x) = state_or_empty (lookup 0 [])

  -- Green, yellow and red clearance of a phase.
  abbrev pub share : SignalGroupState → ℕ
  share s = s.green_duration + s.yellow_duration + s.red_clearance

  abbrev pub cycle : List ℕ → ℕ
  cycle [] = 0
  cycle (q ∷ qs) = share (state_of_group (get_signal_group_id phases q)) + cycle qs

  cycle-append : (xs ys : List ℕ) → cycle (xs ++ ys) ≡ cycle xs + cycle ys
  cycle-append [] ys = omega arith
  cycle-append (x ∷ xs) ys = omega (arith, cycle-append xs ys)

  red_duration_from-cycle :
      (phase red out : ℕ) (qs : List ℕ)
      → elem phase qs ≡ false
      → red_duration_from phases states phase red qs ≡ ok out
      → out ≡ red + cycle qs
  unfolding red_duration_from
  red_duration_from-cycle phase red out [] u h = let same : ok red ≡ ok out = h in ground arith
  red_duration_from-cycle phase red out (q ∷ qs) u h =
      elim (Result-cases (get_signal_group_id phases q)) [
        | inr (x, k) ↦ let bad : err x ≡ ok out = rw (k, red_duration_from) at h in cc bad
        | inl (sg, k) ↦
            let s : SignalGroupState = state_or_empty (lookup sg states) in
            let other : (q == phase) ≡ false = ground arith in
            let later : red_duration_from phases states phase (red + share s) qs ≡ ok out =
              rw (k, other, red_duration_from) at h in
            let sum = red_duration_from-cycle phase (red + share s) out qs (ground arith) later in
            rw k (omega (arith, sum))
      ]

  -- Where the sequence of a phase goes through its ring from that phase on, and the phase is in the
  -- ring once: when the red duration is found, red, green and yellow together are the cycle of the
  -- ring, the sum of green, yellow and red clearance over the phases of the ring.
  pub get_red_duration-cycle :
      (phase sg red : ℕ) (pre suf : List ℕ)
      → get_signal_group_id phases phase ≡ ok sg
      → (state_or_empty (lookup sg states)).phase_seq ≡ phase ∷ (suf ++ pre)
      → elem phase (suf ++ pre) ≡ false
      → get_red_duration phases states phase ≡ ok red
      → let s = state_or_empty (lookup sg states) in
        red + s.green_duration + s.yellow_duration ≡ cycle (pre ++ phase ∷ suf)
  unfolding get_red_duration red_duration_from
  get_red_duration-cycle phase sg red pre suf known sequence once h =
      let s : SignalGroupState = state_or_empty (lookup sg states) in
      let self : (phase == phase) ≡ true = (==_iff phase phase).1 refl in
      let later : red_duration_from phases states phase s.red_clearance (suf ++ pre) ≡ ok red =
        rw (known, self) at (rw (known, sequence) at h) in
      let sum = red_duration_from-cycle phase s.red_clearance red (suf ++ pre) once later in
      let whole : cycle (pre ++ phase ∷ suf) ≡ cycle pre + (share s + cycle suf) =
        rw known at (cycle-append pre (phase ∷ suf)) in
      omega (arith, sum, whole, cycle-append suf pre)
