-- ===== src/SignalOpt/BasePlan/Start.antt =====
-- streets_desired_phase_plan_generator.cpp, find_tbd_start_time: the clearances that it waits for.
use carma_streets.Base.{
  ℕ, ◌+◌, ◌≡◌, ◌≤◌, ◌<◌, ◌⊎◌, ◌==◌, ==_iff, max, List, [], ◌∷◌, last, All, Any, add64, ok, err,
  Bool-cases, Result-cases, inl, inr, no_configuration, no_clearance, arith,
}
use carma_streets.Plan.{GreenTiming, TscConfiguration, get_signal_group_configuration_by_sg}
use carma_streets.SignalOpt.BasePlan.{clearance_from, find_tbd_start_time}

abbrev pub clearance : TscConfiguration → ℕ → ℕ
clearance tsc sg =
    let c = get_signal_group_configuration_by_sg tsc sg in
    c.yellow_change_duration + c.red_clearance

-- The configuration of the group is its own, and its clearance is within the bound.
abbrev pub IsCleared : TscConfiguration → ℕ → ℕ → Type 0
IsCleared tsc bound sg =
    (sg ≡ (get_signal_group_configuration_by_sg tsc sg).signal_group_id)
    × (clearance tsc sg ≤ bound)

clearance_from-IsCleared :
    (found : ℕ) (tsc : TscConfiguration) (groups : List ℕ) (out : ℕ)
    → clearance_from found tsc groups ≡ ok out
    → (found ≤ out)
      × All (IsCleared tsc out) groups
      × ((found ≡ out) ⊎ Any (λ sg. clearance tsc sg ≡ out) groups)
unfolding clearance_from
clearance_from-IsCleared found tsc [] out h =
    let eq : found ≡ out = cc h in (omega arith, tt, inl eq)
clearance_from-IsCleared found tsc (sg ∷ sgs) out h =
    let c = get_signal_group_configuration_by_sg tsc sg in
    elim (Bool-cases (sg == c.signal_group_id)) [
      | inr other ↦
          let bad : err no_configuration ≡ ok out = rw (other, clearance_from) at h in cc bad
      | inl own ↦
          let rest =
            clearance_from-IsCleared (max found (clearance tsc sg)) tsc sgs out
              (rw (own, clearance_from) at h) in
          let bounded = rest.0 in
          (
            omega arith,
            (((==_iff sg c.signal_group_id).0 own, omega arith), rest.1),
            elim rest.2 [ inr later ↦ inr (inr later) | inl here ↦ ground arith ],
          )
    ]

-- When find_tbd_start_time returns for a plan, the time that is to be decided starts after the last
-- green's end (modulo 2^64) by the longest clearance, which is not 0: every signal group of the last
-- green has a configuration of its own with no longer yellow change and red clearance, and one of them
-- has just that.
pub find_tbd_start_time-IsCleared :
    (tsc : TscConfiguration) (g : GreenTiming) (gs : List GreenTiming) (start : ℕ)
    → find_tbd_start_time tsc (g ∷ gs) ≡ ok start
    → (longest : ℕ) × (start ≡ add64 (last g gs).end_time longest)
      × (0 < longest)
      × All (IsCleared tsc longest) (last g gs).signal_groups
      × Any (λ sg. clearance tsc sg ≡ longest) (last g gs).signal_groups
unfolding find_tbd_start_time
find_tbd_start_time-IsCleared tsc g gs start h =
    elim (Result-cases (clearance_from 0 tsc (last g gs).signal_groups)) [
      | inr (x, bad) ↦ let no : err x ≡ ok start = rw (bad, find_tbd_start_time) at h in cc no
      | inl (longest, found) ↦
          let each = clearance_from-IsCleared 0 tsc (last g gs).signal_groups longest found in
          elim (Bool-cases (longest == 0)) [
            | inl nothing ↦
                let no : err no_clearance ≡ ok start =
                  rw (found, nothing, find_tbd_start_time) at h in
                cc no
            | inr some_time ↦
                let yes : ok (add64 (last g gs).end_time longest) ≡ ok start =
                  rw (found, some_time, find_tbd_start_time) at h in
                let positive : 0 < longest = ground arith in
                (
                  longest,
                  cc yes,
                  positive,
                  each.1,
                  elim each.2 [ inl zero_longest ↦ absurd (omega arith) | inr one ↦ one ],
                )
          ]
    ]
