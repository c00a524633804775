-- ===== src/SignalOpt/Groups/Covered.antt =====
-- signal_opt_service.cpp, populate_movement_groups: which signal groups the movement groups have.
use carma_streets.Base.{
  ℕ, ◌==◌, ◌≡◌, ◌≢◌, refl, sym, ◌∙◌, inl, inr, List, [], ◌∷◌, ◌++◌, All, All-append, Bool, true,
  false, ◌&&◌, ◌||◌, not, if◌then◌else◌, elem, some, Bool-cases, List-cases, arith,
}
use carma_streets.Plan.{TscConfiguration, is_empty}
use carma_streets.SignalOpt.{MovementGroup}
use carma_streets.SignalOpt.Groups.{
  new_group, already_added, add_concurrent, add_configured, populate_movement_groups,
}
use carma_streets.SignalOpt.Groups.Removed.{covers, IsPair, remove_signal_groups-covers}

-- The configuration names the signal group, by itself or as concurrent with another.
abbrev pub names : TscConfiguration → ℕ → Bool
names [] sg = false
names (c ∷ cs) sg = (c.signal_group_id == sg || elem sg c.concurrent_signal_groups) || names cs sg

-- Signal group 0 is invalid, and no signal group is concurrent with itself.
abbrev pub IsValid : TscConfiguration → Type 0
IsValid config =
    All (λ c. (c.signal_group_id ≢ 0) × All (λ k. c.signal_group_id ≢ k) c.concurrent_signal_groups)
      config

covers-append :
    (gs : List MovementGroup) (first second sg : ℕ)
    → covers (gs ++ new_group first second ∷ []) sg
      ≡ (covers gs sg || (first == sg || second == sg))
covers-append [] first second sg = ground arith
covers-append (g ∷ gs) first second sg =
    let rest = covers-append gs first second sg in rw rest (ground arith)

already_added-covers :
    (gs : List MovementGroup) (first second sg : ℕ)
    → already_added gs first second ≡ true
    → (covers gs sg || (first == sg || second == sg)) ≡ covers gs sg
unfolding already_added
already_added-covers [] first second sg h = cc h
already_added-covers (g ∷ gs) first second sg h =
    elim (Bool-cases (g.second == first && g.first == second)) [
      | inl here ↦ ground arith
      | inr other ↦
          let later : already_added gs first second ≡ true = ground arith in
          let rest = already_added-covers gs first second sg later in ground arith
    ]

-- A pair is covered after it was to be added, added or not.
add_one-covers :
    (gs : List MovementGroup) (first second sg : ℕ)
    → covers (if already_added gs first second then gs else gs ++ new_group first second ∷ []) sg
      ≡ (covers gs sg || (first == sg || second == sg))
add_one-covers gs first second sg = elim (Bool-cases (already_added gs first second)) [
  | inl there ↦ rw there (sym (already_added-covers gs first second sg there))
  | inr fresh ↦ rw fresh (covers-append gs first second sg)
]

either :
    (a f k e r : Bool) → ((a || (f || k)) || ((f && not e) || r)) ≡ (a || ((f && true) || (k || r)))
either a f k e r = ground arith

add_concurrent-covers :
    (first : ℕ) (ks : List ℕ) (gs : List MovementGroup) (sg : ℕ)
    → covers (add_concurrent first ks gs) sg
      ≡ (covers gs sg || ((first == sg && not (is_empty ks)) || elem sg ks))
unfolding add_concurrent
add_concurrent-covers first [] gs sg = ground arith
add_concurrent-covers first (k ∷ ks) gs sg =
    let gs_after = if already_added gs first k then gs else gs ++ new_group first k ∷ [] in
    let rest = add_concurrent-covers first ks gs_after sg in
    let one = add_one-covers gs first k sg in
    rest ∙ (rw one (either (covers gs sg) (first == sg) (k == sg) (is_empty ks) (elem sg ks)))

add_configured-covers :
    (config : TscConfiguration) (gs : List MovementGroup) (sg : ℕ)
    → sg ≢ 0
    → covers (add_configured config gs) sg ≡ (covers gs sg || names config sg)
unfolding add_configured
add_configured-covers [] gs sg valid = ground arith
add_configured-covers (c ∷ cs) gs sg valid = elim (List-cases c.concurrent_signal_groups) [
  | inl single ↦
      let gs_after = gs ++ new_group c.signal_group_id 0 ∷ [] in
      let rest = add_configured-covers cs gs_after sg valid in
      let one = covers-append gs c.signal_group_id 0 sg in
      rw single (rest ∙ (rw one (ground arith)))
  | inr (k, ks, several) ↦
      let gs_after = add_concurrent c.signal_group_id (k ∷ ks) gs in
      let rest = add_configured-covers cs gs_after sg valid in
      let one = add_concurrent-covers c.signal_group_id (k ∷ ks) gs sg in
      rw several (rest ∙ (rw one (ground arith)))
]

add_concurrent-IsPair :
    (first : ℕ) (ks : List ℕ) (gs : List MovementGroup)
    → first ≢ 0
    → All (λ k. first ≢ k) ks
    → All IsPair gs
    → All IsPair (add_concurrent first ks gs)
unfolding add_concurrent
add_concurrent-IsPair first [] gs set apart h = h
add_concurrent-IsPair first (k ∷ ks) gs set apart h = elim (Bool-cases (already_added gs first k)) [
  | inl there ↦ rw there (add_concurrent-IsPair first ks gs set apart.1 h)
  | inr fresh ↦ rw fresh (
      add_concurrent-IsPair first ks (gs ++ new_group first k ∷ []) set apart.1
        (All-append IsPair gs (new_group first k ∷ []) h ((set, apart.0), tt)))
]

add_configured-IsPair :
    (config : TscConfiguration) (gs : List MovementGroup)
    → IsValid config
    → All IsPair gs
    → All IsPair (add_configured config gs)
unfolding add_configured
add_configured-IsPair [] gs valid h = h
add_configured-IsPair (c ∷ cs) gs valid h =
    elim (Bool-cases (is_empty c.concurrent_signal_groups)) [
      | inl single ↦ rw single (
          add_configured-IsPair cs (gs ++ new_group c.signal_group_id 0 ∷ []) valid.1 (
            All-append IsPair gs (new_group c.signal_group_id 0 ∷ []) h
              ((valid.0.0, valid.0.0), tt)))
      | inr several ↦ rw several (
          add_configured-IsPair cs (add_concurrent c.signal_group_id c.concurrent_signal_groups gs)
            valid.1
            (add_concurrent-IsPair c.signal_group_id c.concurrent_signal_groups gs valid.0.0
              valid.0.1 h))
    ]

-- For a configuration without signal group 0 as an entry's own and without one that is concurrent with
-- itself, the movement groups that are made from it have exactly the signal groups that it names and
-- that are not ignored.
pub populate_movement_groups-covers :
    (ignored : List ℕ) (config : TscConfiguration) (sg : ℕ)
    → IsValid config
    → sg ≢ 0
    → covers (populate_movement_groups ignored (some config) []) sg
      ≡ (names config sg && not (elem sg ignored))
unfolding populate_movement_groups
populate_movement_groups-covers ignored config sg valid set =
    let made = add_configured-covers config [] sg set in
    remove_signal_groups-covers ignored (add_configured config []) sg set
      (add_configured-IsPair config [] valid tt)
    ∙ (rw made refl)
