-- ===== src/SignalOpt/BasePlan/Order.antt =====
-- streets_desired_phase_plan_generator.cpp, convert_spat_to_dpp: the order of the greens.
use mathlib.Core.List.{Perm, perm_middle, append-nil}
use mathlib.Core.List.Perm
use carma_streets.Base.{
  ◌≡◌, refl, ◌≤◌, ◌<◌, ◌⊎◌, inl, inr, ltb, List, [], ◌∷◌, ◌++◌, false, All, All-map, ok, err,
  Bool-cases, Result-cases, overlapping_greens, arith,
}
use carma_streets.Plan.{GreenTiming}
use carma_streets.SignalOpt.BasePlan.{partly_overlaps, insert_green, order_greens}

abbrev pub Before : GreenTiming → GreenTiming → Type 0
Before a b = a.end_time < b.start_time

abbrev pub IsTimed : GreenTiming → Type 0
IsTimed a = a.start_time ≤ a.end_time

abbrev pub Apart : GreenTiming → GreenTiming → Type 0
Apart a b = Before a b ⊎ Before b a

-- Every green does not end before it starts, and ends before another starts or starts after its end.
abbrev pub AllApart : List GreenTiming → Type 0
AllApart [] = Unit
AllApart (g ∷ gs) = IsTimed g × All (Apart g) gs × AllApart gs

-- Each green ends before those behind it start.
abbrev pub InSequence : List GreenTiming → Type 0
InSequence [] = Unit
InSequence (g ∷ gs) = IsTimed g × All (Before g) gs × InSequence gs

Apart-partly_overlaps :
    (g p : GreenTiming) → IsTimed g → IsTimed p → Apart g p → partly_overlaps g p ≡ false
unfolding partly_overlaps
Apart-partly_overlaps g p h k (inl before) = ground arith
Apart-partly_overlaps g p h k (inr after) = ground arith

All-insert_green :
    (P : GreenTiming → Type 0) (g : GreenTiming) (plan out : List GreenTiming)
    → insert_green g plan ≡ ok out
    → P g
    → All P plan
    → All P out
unfolding insert_green
All-insert_green P g [] out h here all = let eq : g ∷ [] ≡ out = cc h in rw (← eq) (here, tt)
All-insert_green P g (p ∷ ps) out h here all = elim (Bool-cases (partly_overlaps g p)) [
  | inl over ↦ let bad : err overlapping_greens ≡ ok out = rw (over, insert_green) at h in cc bad
  | inr clear ↦ elim (Bool-cases (ltb g.end_time p.start_time)) [
    | inl before ↦
        let made : ok (g ∷ p ∷ ps) ≡ ok out = rw (clear, before, insert_green) at h in
        let eq : g ∷ p ∷ ps ≡ out = cc made in rw (← eq) (here, all)
    | inr after ↦ elim (Result-cases (insert_green g ps)) [
      | inr (x, bad) ↦ let no : err x ≡ ok out = rw (clear, after, bad, insert_green) at h in cc no
      | inl (rest, made) ↦
          let yes : ok (p ∷ rest) ≡ ok out = rw (clear, after, made, insert_green) at h in
          let eq : p ∷ rest ≡ out = cc yes in
          rw (← eq) (all.0, All-insert_green P g ps rest made here all.1)
    ]
  ]
]

-- Where the green goes: its place keeps the sequence.
insert_green-InSequence :
    (g : GreenTiming) (plan : List GreenTiming)
    → IsTimed g
    → InSequence plan
    → All (Apart g) plan
    → (out : List GreenTiming) × (insert_green g plan ≡ ok out)
      × InSequence out
      × Perm out (g ∷ plan)
unfolding insert_green
insert_green-InSequence g [] h k apart = (g ∷ [], refl, (h, tt, tt), Perm.rfl)
insert_green-InSequence g (p ∷ ps) h k apart =
    let clear = Apart-partly_overlaps g p h k.0 apart.0 in
    elim (Bool-cases (ltb g.end_time p.start_time)) [
      | inl before ↦
          let first : Before g p = ground arith in
          (
            g ∷ p ∷ ps,
            rw (clear, before) refl,
            (
              h,
              (
                first,
                All-map (Before p) (Before g)
                    (λ q later.
                      (let far : Before p q = later in let own : IsTimed p = k.0 in omega arith))
                    ps k.1,
              ),
              k,
            ),
            Perm.rfl,
          )
      | inr after ↦
          let behind : Before p g = elim apart.0 [ inl early ↦ ground arith | inr late ↦ late ] in
          let rest = insert_green-InSequence g ps h k.2 apart.1 in
          (
            p ∷ rest.0,
            rw (clear, after, rest.1) refl,
            (k.0, All-insert_green (Before p) g ps rest.0 rest.1 behind k.1, rest.2),
            Perm.trans (Perm.cons p rest.3) (Perm.swap g p ps),
          )
    ]

Apart-each :
    (g : GreenTiming) (plan out gs : List GreenTiming)
    → insert_green g plan ≡ ok out
    → All (Apart g) gs
    → All (λ q. All (Apart q) plan) gs
    → All (λ q. All (Apart q) out) gs
Apart-each g plan out [] made apart each = tt
Apart-each g plan out (q ∷ qs) made apart each = (
  All-insert_green (Apart q) g plan out made
      (elim apart.0 [ inl early ↦ inr early | inr late ↦ inl late ]) each.0,
  Apart-each g plan out qs made apart.1 each.1,
)

order_greens-from :
    (plan gs : List GreenTiming)
    → InSequence plan
    → AllApart gs
    → All (λ q. All (Apart q) plan) gs
    → (out : List GreenTiming) × (order_greens plan gs ≡ ok out)
      × InSequence out
      × Perm out (gs ++ plan)
unfolding order_greens
order_greens-from plan [] k apart each = (plan, refl, k, Perm.rfl)
order_greens-from plan (g ∷ gs) k apart each =
    let one = insert_green-InSequence g plan apart.0 k each.0 in
    let rest =
      order_greens-from one.0 gs one.2 apart.2 (Apart-each g plan one.0 gs one.1 apart.1 each.1) in
    (
      rest.0,
      rw one.1 rest.1,
      rest.2,
      Perm.trans rest.3 (Perm.trans (Perm.append_left gs one.3) (perm_middle gs plan)),
    )

no_greens : (gs : List GreenTiming) → All (λ q. All (Apart q) []) gs
no_greens [] = tt
no_greens (g ∷ gs) = (tt, no_greens gs)

-- Greens that do not end before they start, and of which any two are apart (one ends before the other
-- starts), are all put into the plan, each once, without an exception, and in the order of time: each
-- ends before those behind it start.
pub order_greens-InSequence :
    (gs : List GreenTiming)
    → AllApart gs
    → (out : List GreenTiming) × (order_greens [] gs ≡ ok out) × InSequence out × Perm out gs
order_greens-InSequence gs apart =
    let made = order_greens-from [] gs tt apart (no_greens gs) in
    (made.0, made.1, made.2, Perm.trans made.3 (rw (append-nil gs) Perm.rfl))
