-- ===== src/SnmpCmd/Masks.antt =====
-- Masks as sets of phases: bit `i` of a control value stands for phase `i + 1`.
use Prim.Native.Nat.{bit_or, bit_xor}
use carma_streets.Base.{
  ℕ, zero, suc, ◌+◌, ◌-◌, ◌/◌, ◌%◌, ◌^◌, ◌≤◌, ◌<◌, ◌≡◌, refl, sym, ap, ◌∙◌, List, [], ◌∷◌, Bool,
  true, false, ◌||◌, not, ◌==◌, if◌then◌else◌, elem, All, arith, u8,
}
use carma_streets.SnmpCmd.Commands.{bitwise_or_phases, bitwise_xor_phases}

abbrev pub bit : ℕ → ℕ → Bool
bit val i = (val / 2 ^ i) % 2 == 1

abbrev same : Bool → Bool → Bool
same true b = b
same false b = not b

-- The test holds at every number under the bound.
checked : (ℕ → Bool) → ℕ → Bool
checked test zero = true
checked test (suc largest) = let rest = checked test largest in if test largest then rest else false

checked-at : (test : ℕ → Bool) (bound i : ℕ) → i < bound → checked test bound ≡ true → test i ≡ true
unfolding checked
checked-at test zero i under all = absurd (omega arith)
checked-at test (suc largest) i under all = ground (arith, checked-at test largest i)

-- The laws of the two operations on a byte, checked at every byte, phase and bit.
or_ok : ℕ → ℕ → ℕ → Bool
or_ok v k i = same (bit (u8 (bit_or v (2 ^ k))) i) (bit v i || k == i)

xor_ok : ℕ → ℕ → ℕ → Bool
xor_ok v k i = same (bit (u8 (bit_xor v (2 ^ k))) i) (not (same (bit v i) (k == i)))

or_table : checked (λ v. checked (λ k. checked (or_ok v k) 8) 8) 256 ≡ true
unfolding checked or_ok
or_table = refl

xor_table : checked (λ v. checked (λ k. checked (xor_ok v k) 8) 8) 256 ≡ true
unfolding checked xor_ok
xor_table = refl

same_eq : (a b : Bool) → same a b ≡ true → a ≡ b
same_eq true b h = sym h
same_eq false b h = ground arith

bit-or : (v k i : ℕ) → v < 256 → k < 8 → i < 8 → bit (u8 (bit_or v (2 ^ k))) i ≡ (bit v i || k == i)
unfolding or_ok
bit-or v k i a b c =
    let row = checked-at (λ w. checked (λ j. checked (or_ok w j) 8) 8) 256 v a or_table in
    let column = checked-at (λ j. checked (or_ok v j) 8) 8 k b row in
    same_eq _ _ (checked-at (or_ok v k) 8 i c column)

-- A phase has a bit in a byte.
abbrev pub IsPhase : ℕ → Type 0
IsPhase p = (1 ≤ p) × (p ≤ 8)

-- `bitwise_or_phases` sets the bits of the given phases, of which every one is between 1 and 8, and
-- leaves the other bits as they were.
pub bitwise_or_phases-bit :
    (phases : List ℕ) (val i : ℕ)
    → val < 256
    → All IsPhase phases
    → i < 8
    → bit (bitwise_or_phases val phases) i ≡ (bit val i || elem (i + 1) phases)
unfolding bitwise_or_phases
bitwise_or_phases-bit [] val i v p h = ground arith
bitwise_or_phases-bit (q ∷ phases) val i v p h =
    bitwise_or_phases-bit phases (u8 (bit_or val (2 ^ (q - 1)))) i (omega arith) p.1 h
    ∙ ap (λ (b : Bool). b || elem (i + 1) phases) (bit-or val (q - 1) i v (omega (arith, p.0)) h)
    ∙ regroup (bit val i) (q - 1 == i) (q == i + 1) (elem (i + 1) phases) (shift q i p.0)
  where
    shift : (q i : ℕ) → IsPhase q → (q - 1 == i) ≡ (q == i + 1)
    shift q i r = ground arith

    regroup : (a b c d : Bool) → b ≡ c → ((a || b) || d) ≡ (a || (c || d))
    regroup a b c d e = ground arith

bit-xor :
    (v k i : ℕ)
    → v < 256
    → k < 8
    → i < 8
    → bit (u8 (bit_xor v (2 ^ k))) i ≡ not (same (bit v i) (k == i))
unfolding xor_ok
bit-xor v k i a b c =
    let row = checked-at (λ w. checked (λ j. checked (xor_ok w j) 8) 8) 256 v a xor_table in
    let column = checked-at (λ j. checked (xor_ok v j) 8) 8 k b row in
    same_eq _ _ (checked-at (xor_ok v k) 8 i c column)

-- The number of times that the phase stands in the list is odd.
abbrev pub toggled : ℕ → List ℕ → Bool
toggled p [] = false
toggled p (q ∷ phases) = if q == p then not (toggled p phases) else toggled p phases

-- `bitwise_xor_phases` flips each bit as often as its phase stands in the list, for phases between 1
-- and 8; so a phase that stands there twice keeps its bit.
pub bitwise_xor_phases-bit :
    (phases : List ℕ) (val i : ℕ)
    → val < 256
    → All IsPhase phases
    → i < 8
    → bit (bitwise_xor_phases val phases) i
      ≡ (if toggled (i + 1) phases then not (bit val i) else bit val i)
unfolding bitwise_xor_phases
bitwise_xor_phases-bit [] val i v p h = refl
bitwise_xor_phases-bit (q ∷ phases) val i v p h =
    bitwise_xor_phases-bit phases (u8 (bit_xor val (2 ^ (q - 1)))) i (omega arith) p.1 h
    ∙ flip (bit (u8 (bit_xor val (2 ^ (q - 1)))) i) (bit val i) (q - 1 == i) (q == i + 1)
        (toggled (i + 1) phases) (bit-xor val (q - 1) i v (omega (arith, p.0)) h) (shift q i p.0)
  where
    shift : (q i : ℕ) → IsPhase q → (q - 1 == i) ≡ (q == i + 1)
    shift q i r = ground arith

    flip :
        (a b c d t : Bool)
        → a ≡ not (same b c)
        → c ≡ d
        → (if t then not a else a) ≡ (if (if d then not t else t) then not b else b)
    flip a b c d t e f = ground arith
