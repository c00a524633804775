-- ===== src/Tsc/Monitor/Prune.antt =====
-- Which entries of the desired phase plan the pruning drops.
use carma_streets.Base.{
  ℕ, ◌≤◌, ◌<◌, ◌≡◌, refl, ap, List, [], ◌∷◌, ◌++◌, All, arith, ltb, inl, inr, Bool-cases,
}
use carma_streets.Plan.{GreenTiming}
use carma_streets.Tsc.Monitor.{prune_expired_greens}

-- Empty, or with a first green that is not over.
abbrev pub IsCurrent : ℕ → List GreenTiming → Type 0
IsCurrent now [] = Unit
IsCurrent now (t ∷ ts) = now < t.end_time

-- Pruning drops a beginning of the plan, of which every green has ended by the reading of the clock,
-- and keeps the rest as it was: it is empty or begins with a green that is not over.
pub prune_expired_greens-splits :
    (now : ℕ) (ts : List GreenTiming)
    → (dropped : List GreenTiming) × (ts ≡ dropped ++ prune_expired_greens now ts)
      × All (λ t. t.end_time ≤ now) dropped
      × IsCurrent now (prune_expired_greens now ts)
unfolding prune_expired_greens
prune_expired_greens-splits now [] = ([], refl, tt, tt)
prune_expired_greens-splits now (t ∷ ts) = elim (Bool-cases (ltb now t.end_time)) [
  | inl current ↦ rw current ([], refl, tt, ground arith)
  | inr expired ↦
      let (dropped, whole, ended, front) = prune_expired_greens-splits now ts in
      rw expired (t ∷ dropped, ap (◌∷◌ t) whole, (ground arith, ended), front)
]

-- Pruning again at a later reading of the clock is the same as pruning at the later reading only.
pub prune_expired_greens-later :
    (now later : ℕ) (ts : List GreenTiming)
    → now ≤ later
    → prune_expired_greens later (prune_expired_greens now ts) ≡ prune_expired_greens later ts
unfolding prune_expired_greens
prune_expired_greens-later now later [] h = refl
prune_expired_greens-later now later (t ∷ ts) h =
    ground (arith, prune_expired_greens-later now later ts)
