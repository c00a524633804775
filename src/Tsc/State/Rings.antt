-- ===== src/Tsc/State/Rings.antt =====
-- The sequence that is kept for a phase is the ring of the phase, from that phase on.
use carma_streets.Base.{
  ℕ, ◌≡◌, refl, ap, List, [], ◌∷◌, ◌++◌, ◌==◌, ==_iff, some, ok, inl, inr, Bool-cases, Option-cases,
}
use mathlib.Core.List.{append_assoc, append-nil}
use carma_streets.Tsc.State.{rotate_at, get_following_phases}

-- The list begins with the phase, and goes through the ring once.
abbrev pub IsRotation : ℕ → List ℕ → List ℕ → Type 0
IsRotation phase ring sequence =
    (pre : List ℕ) × (suf : List ℕ) × (ring ≡ pre ++ phase ∷ suf)
    × (sequence ≡ phase ∷ (suf ++ pre))

rotate_at-splits :
    (phase : ℕ) (before ring sequence : List ℕ)
    → rotate_at phase before ring ≡ some sequence
    → (pre : List ℕ) × (suf : List ℕ) × (ring ≡ pre ++ phase ∷ suf)
      × (sequence ≡ phase ∷ (suf ++ (before ++ pre)))
unfolding rotate_at
rotate_at-splits phase before [] sequence h = cc
rotate_at-splits phase before (q ∷ qs) sequence h = elim (Bool-cases (q == phase)) [
  | inl found ↦
      let same : q ≡ phase = (==_iff q phase).0 found in
      let made : some ((q ∷ qs) ++ before) ≡ some sequence = rw found at h in
      ([], qs, cc same, cc (made, same, append-nil before))
  | inr other ↦
      let later : rotate_at phase (before ++ q ∷ []) qs ≡ some sequence = rw other at h in
      let (pre, suf, ring, made) = rotate_at-splits phase (before ++ q ∷ []) qs sequence later in
      (q ∷ pre, suf, ap (◌∷◌ q) ring, cc (made, append_assoc before (q ∷ []) pre))
]

-- When `get_following_phases` returns, its result begins with the phase and goes once through a ring
-- of the controller that holds the phase, in the order of the ring.
pub get_following_phases-IsRotation :
    (phase : ℕ) (rings : List (List ℕ)) (sequence : List ℕ)
    → get_following_phases phase rings ≡ ok sequence
    → (before : List (List ℕ)) × (ring : List ℕ) × (after : List (List ℕ)) × (rings
        ≡ before ++ ring ∷ after)
      × IsRotation phase ring sequence
unfolding get_following_phases
get_following_phases-IsRotation phase [] sequence h = cc
get_following_phases-IsRotation phase (ring ∷ rings) sequence h =
    elim (Option-cases (rotate_at phase [] ring)) [
      | inl missing ↦
          let later : get_following_phases phase rings ≡ ok sequence =
            rw (missing, get_following_phases) at h in
          let (before, found, after, split, rotation) =
            get_following_phases-IsRotation phase rings sequence later in
          (ring ∷ before, found, after, ap (◌∷◌ ring) split, rotation)
      | inr (made, k) ↦
          let same : ok made ≡ ok sequence = rw (k, get_following_phases) at h in
          let (pre, suf, split, rotation) = rotate_at-splits phase [] ring made k in
          ([], ring, rings, refl, (pre, suf, split, cc (same, rotation)))
    ]
