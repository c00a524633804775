-- ===== src/Spat/Projection/Evolution.antt =====
-- What a plan does to one movement, and that a whole update does this to each.
use carma_streets.Base.{
  ℕ, ◌≡◌, refl, sym, ◌∙◌, ap, List, [], ◌∷◌, Distinct, All, Result, ok, done, thrown,
  within-eq-done, and_then-eq-done, arith, inl, inr, Result-cases, Bool-cases, empty_signal_groups,
}
use carma_streets.Plan.{GreenTiming, DesiredPhasePlan, TscConfiguration, is_empty}
use carma_streets.Spat.Movement.{MovementPhaseState, MovementState}
use carma_streets.Spat.Intersection.{clear_movement, clear_future_movement_events}
use carma_streets.Spat.Intersection.Store.{groups}
use carma_streets.Spat.Intersection.Single.{HasCurrentOnly, clear-HasCurrentOnly}
use carma_streets.Spat.Projection.{
  process_first_desired_green, process_second_onward_desired_green, process_entry, process_onward,
  process_plan, update_spat_with_candidate_dpp,
}
use carma_streets.Spat.Projection.Reference.{
  KeepsGroup, process_each, process_movements-process_each,
}

-- The lists are of one length, and the relation holds place by place.
abbrev pub Each {ℓ} : {A : Type ℓ} → (A → A → Type 0) → List A → List A → Type 0
Each R [] [] = Unit
Each R [] (y ∷ ys) = ⊥
Each R (x ∷ xs) [] = ⊥
Each R (x ∷ xs) (y ∷ ys) = R x y × Each R xs ys

pub Each-map {ℓ} :
    {A : Type ℓ} (R S : A → A → Type 0) (f : (x y : A) → R x y → S x y) (xs ys : List A)
    → Each R xs ys
    → Each S xs ys
Each-map R S f [] [] h = tt
Each-map R S f [] (y ∷ ys) h = h
Each-map R S f (x ∷ xs) [] h = h
Each-map R S f (x ∷ xs) (y ∷ ys) h = (f x y h.0, Each-map R S f xs ys h.1)

pub Each-refl {ℓ} :
    {A : Type ℓ} (R : A → A → Type 0) (f : (x : A) → R x x) (xs : List A) → Each R xs xs
Each-refl R f [] = tt
Each-refl R f (x ∷ xs) = (f x, Each-refl R f xs)

Each-compose {ℓ} :
    {A : Type ℓ} (R S T : A → A → Type 0) (f : (x y z : A) → R x y → S y z → T x z)
    (xs ys zs : List A)
    → Each R xs ys
    → Each S ys zs
    → Each T xs zs
Each-compose R S T f [] [] zs h k =
    elim zs as (λ z. Each S [] z → Each T [] z) [ [] ↦ λ u. u | y ∷ r ↦ λ u. u ] k
Each-compose R S T f [] (y ∷ ys) zs h k = absurd h
Each-compose R S T f (x ∷ xs) [] zs h k = absurd h
Each-compose R S T f (x ∷ xs) (y ∷ ys) [] h k = absurd k
Each-compose R S T f (x ∷ xs) (y ∷ ys) (z ∷ zs) h k =
    (f x y z h.0 k.0, Each-compose R S T f xs ys zs h.1 k.1)

pub Each-groups :
    (R : MovementState → MovementState → Type 0)
    (keeps : (m n : MovementState) → R m n → n.signal_group ≡ m.signal_group)
    (ms ns : List MovementState)
    → Each R ms ns
    → groups ns ≡ groups ms
Each-groups R keeps [] [] h = refl
Each-groups R keeps [] (n ∷ ns) h = absurd h
Each-groups R keeps (m ∷ ms) [] h = absurd h
Each-groups R keeps (m ∷ ms) (n ∷ ns) h = cc (keeps m n h.0, Each-groups R keeps ms ns h.1)

pub process_each-Each :
    (process : MovementState → Result MovementState) (ms out : List MovementState)
    → process_each process ms ≡ done out
    → Each (λ m n. process m ≡ ok n) ms out
unfolding process_each
process_each-Each process [] [] h = tt
process_each-Each process [] (n ∷ out) h = cc
process_each-Each process (m ∷ ms) out h = elim (Result-cases (process m)) [
  | inl (n, k) ↦
      let (rest, later, made) =
        within-eq-done (◌∷◌ n) (process_each process ms) (rw (k, process_each) at h) in
      rw (← made) (k, process_each-Each process ms rest later)
  | inr (x, k) ↦ let failed : thrown x (m ∷ ms) ≡ done out = rw (k, process_each) at h in cc failed
]

pub groups-clear :
    (garbage : MovementPhaseState) (ms : List MovementState)
    → groups (clear_future_movement_events garbage ms) ≡ groups ms
unfolding clear_future_movement_events clear_movement
groups-clear garbage [] = refl
groups-clear garbage (m ∷ ms) = ap (◌∷◌ m.signal_group) (groups-clear garbage ms)

Each-of_clear :
    (R : MovementState → MovementState → Type 0) (garbage : MovementPhaseState)
    (ms out : List MovementState)
    → Each R (clear_future_movement_events garbage ms) out
    → Each (λ m n. R (clear_movement garbage m) n) ms out
unfolding clear_future_movement_events
Each-of_clear R garbage [] [] h = tt
Each-of_clear R garbage [] (n ∷ out) h = h
Each-of_clear R garbage (m ∷ ms) [] h = h
Each-of_clear R garbage (m ∷ ms) (n ∷ out) h = (h.0, Each-of_clear R garbage ms out h.1)

module _ (now : ℕ) (tsc : TscConfiguration) where
  -- One movement under the entries of the plan after the first.
  abbrev pub Onward : List GreenTiming → MovementState → MovementState → Type 0
  Onward [] m n = m ≡ n
  Onward (t ∷ ts) m n =
      (k : MovementState) × (process_second_onward_desired_green now tsc t m ≡ ok k) × Onward ts k n

  -- One movement under a whole plan.
  abbrev pub Planned : List GreenTiming → MovementState → MovementState → Type 0
  Planned [] m n = m ≡ n
  Planned (t ∷ ts) m n =
      (k : MovementState) × (process_first_desired_green now tsc t m ≡ ok k) × Onward ts k n

  pub first_keeps : (t : GreenTiming) → KeepsGroup (process_first_desired_green now tsc t)
  unfolding process_first_desired_green
  first_keeps t m n h = ground arith

  pub second_keeps : (t : GreenTiming) → KeepsGroup (process_second_onward_desired_green now tsc t)
  unfolding process_second_onward_desired_green
  second_keeps t m n h = ground arith

  process_entry-Each :
      (process : MovementState → Result MovementState) (t : GreenTiming)
      (copies ms out : List MovementState)
      → KeepsGroup process
      → groups copies ≡ groups ms
      → Distinct (groups ms)
      → All HasCurrentOnly copies
      → process_entry now tsc process t copies ms ≡ done out
      → Each (λ m n. process m ≡ ok n) ms out
  unfolding process_entry
  process_entry-Each process t copies ms out keeps e u f h =
      elim (Bool-cases (is_empty t.signal_groups)) [
        | inl none_desired ↦
            let failed : thrown empty_signal_groups ms ≡ done out = rw none_desired at h in
            cc failed
        | inr some_desired ↦ process_each-Each process ms out (
            sym (process_movements-process_each process keeps copies ms e u f)
            ∙ rw some_desired at h)
      ]

  process_onward-Each :
      (ts : List GreenTiming) (copies ms out : List MovementState)
      → groups copies ≡ groups ms
      → Distinct (groups ms)
      → All HasCurrentOnly copies
      → process_onward now tsc ts copies ms ≡ done out
      → Each (Onward ts) ms out
  unfolding process_onward
  process_onward-Each [] copies ms out e u f h =
      let same : ms ≡ out = cc h in rw (← same) (Each-refl (Onward []) (λ m. refl) ms)
  process_onward-Each (t ∷ ts) copies ms out e u f h =
      let process = process_second_onward_desired_green now tsc t in
      let (mid, now_done, later) =
        and_then-eq-done (process_entry now tsc process t copies ms)
          (process_onward now tsc ts copies) h in
      let one = process_entry-Each process t copies ms mid (second_keeps t) e u f now_done in
      let same = Each-groups (λ m n. process m ≡ ok n) (second_keeps t) ms mid one in
      Each-compose (λ m n. process m ≡ ok n) (Onward ts) (Onward (t ∷ ts)) (λ x y z p q. (y, p, q))
        ms mid out one (process_onward-Each ts copies mid out (e ∙ sym same) (rw same u) f later)

  process_plan-Each :
      (ts : List GreenTiming) (ms out : List MovementState)
      → Distinct (groups ms)
      → All HasCurrentOnly ms
      → process_plan now tsc ts ms ms ≡ done out
      → Each (Planned ts) ms out
  unfolding process_plan
  process_plan-Each [] ms out u f h =
      let same : ms ≡ out = cc h in rw (← same) (Each-refl (Planned []) (λ m. refl) ms)
  process_plan-Each (t ∷ ts) ms out u f h =
      let process = process_first_desired_green now tsc t in
      let (mid, now_done, later) =
        and_then-eq-done (process_entry now tsc process t ms ms) (process_onward now tsc ts ms) h in
      let one = process_entry-Each process t ms ms mid (first_keeps t) refl u f now_done in
      let same = Each-groups (λ m n. process m ≡ ok n) (first_keeps t) ms mid one in
      Each-compose (λ m n. process m ≡ ok n) (Onward ts) (Planned (t ∷ ts)) (λ x y z p q. (y, p, q))
        ms mid out one (process_onward-Each ts ms mid out (sym same) (rw same u) f later)

  -- When an update from a plan returns, and the signal groups are distinct, every movement has become
  -- what the entries of the plan, taken in order, make of that movement alone, its future events
  -- cleared first.
  pub update_spat-Planned :
      (garbage : MovementPhaseState) (plan : DesiredPhasePlan) (ms out : List MovementState)
      → Distinct (groups ms)
      → update_spat_with_candidate_dpp now tsc garbage plan ms ≡ done out
      → Each (λ m n. Planned plan.desired_phase_plan (clear_movement garbage m) n) ms out
  unfolding update_spat_with_candidate_dpp
  update_spat-Planned garbage plan ms out u h =
      Each-of_clear (Planned plan.desired_phase_plan) garbage ms out (
        process_plan-Each plan.desired_phase_plan _ out (rw (groups-clear garbage ms) u)
          (clear-HasCurrentOnly garbage ms) h)
