-- ===== src/SignalOpt/Groups/Removed.antt =====
-- signal_opt_service.cpp, remove_signal_groups: that exactly the ignored signal groups vanish.
use carma_streets.Base.{
  ℕ, ◌==◌, ◌≡◌, ◌≢◌, refl, ◌∙◌, inl, inr, List, [], ◌∷◌, All, Bool, false, ◌&&◌, ◌||◌, not, elem,
  Bool-cases, arith,
}
use carma_streets.SignalOpt.{MovementGroup}
use carma_streets.SignalOpt.Groups.{remove_signal_group, remove_signal_groups}

abbrev pub has : MovementGroup → ℕ → Bool
has g sg = g.first == sg || g.second == sg

-- One of the movement groups has the signal group.
abbrev pub covers : List MovementGroup → ℕ → Bool
covers [] sg = false
covers (g ∷ gs) sg = has g sg || covers gs sg

-- Two signal groups, or one and 0.
abbrev pub IsPair : MovementGroup → Type 0
IsPair g = (g.first ≢ 0) × (g.first ≢ g.second)

and_not_or : (a b c : Bool) → ((a && not b) && not c) ≡ (a && not (b || c))
and_not_or a b c = ground arith

remove_signal_group-IsPair :
    (ignore : ℕ) (gs : List MovementGroup)
    → All IsPair gs
    → All IsPair (remove_signal_group ignore gs)
unfolding remove_signal_group
remove_signal_group-IsPair ignore [] h = tt
remove_signal_group-IsPair ignore (g ∷ gs) h =
    let rest = remove_signal_group-IsPair ignore gs h.1 in
    elim (Bool-cases (g.first == ignore && g.second == 0)) [
      | inl whole ↦ rw (whole, remove_signal_group) rest
      | inr some_left ↦ elim (Bool-cases (not (g.first == 0) && g.second == ignore)) [
        | inl second ↦ rw (some_left, second, remove_signal_group) ((h.0.0, h.0.0), rest)
        | inr other ↦ elim (Bool-cases (g.first == ignore && not (g.second == 0))) [
          | inl first ↦
              let left : g.second ≢ 0 = ground arith in
              rw (some_left, other, first, remove_signal_group) ((left, left), rest)
          | inr neither ↦ rw (some_left, other, neither, remove_signal_group) (h.0, rest)
        ]
      ]
    ]

remove_signal_group-covers :
    (ignore : ℕ) (gs : List MovementGroup) (sg : ℕ)
    → sg ≢ 0
    → All IsPair gs
    → covers (remove_signal_group ignore gs) sg ≡ (covers gs sg && not (ignore == sg))
unfolding remove_signal_group
remove_signal_group-covers ignore [] sg valid h = refl
remove_signal_group-covers ignore (g ∷ gs) sg valid h =
    let rest = remove_signal_group-covers ignore gs sg valid h.1 in
    let set = h.0.0 in
    let apart = h.0.1 in
    elim (Bool-cases (g.first == ignore && g.second == 0)) [
      | inl whole ↦ rw (whole, remove_signal_group, rest) (ground arith)
      | inr some_left ↦ elim (Bool-cases (not (g.first == 0) && g.second == ignore)) [
        | inl second ↦ rw (some_left, second, remove_signal_group, rest) (ground arith)
        | inr other ↦ elim (Bool-cases (g.first == ignore && not (g.second == 0))) [
          | inl first ↦ rw (some_left, other, first, remove_signal_group, rest) (ground arith)
          | inr neither ↦ rw (some_left, other, neither, remove_signal_group, rest) (ground arith)
        ]
      ]
    ]

pub remove_signal_groups-covers :
    (ignored : List ℕ) (gs : List MovementGroup) (sg : ℕ)
    → sg ≢ 0
    → All IsPair gs
    → covers (remove_signal_groups ignored gs) sg ≡ (covers gs sg && not (elem sg ignored))
unfolding remove_signal_groups
remove_signal_groups-covers [] gs sg valid h = ground arith
remove_signal_groups-covers (ignore ∷ ignored) gs sg valid h =
    let rest =
      remove_signal_groups-covers ignored (remove_signal_group ignore gs) sg valid
        (remove_signal_group-IsPair ignore gs h) in
    let here = remove_signal_group-covers ignore gs sg valid h in
    rest ∙ (rw here (and_not_or (covers gs sg) (ignore == sg) (elem sg ignored)))
