-- ===== src/Tsc/State/Calls.antt =====
-- The call bits of the controller, and the loop over the pedestrian phases.
use carma_streets.Base.{
  ℕ, zero, suc, ◌+◌, ◌/◌, ◌%◌, ◌^◌, ◌≡◌, refl, [], ◌∷◌, Bool, true, false, ◌&&◌, ltb, leb, ◌==◌,
  ==_iff, elem, none, arith, inl, inr, Bool-cases,
}
use carma_streets.Base.{IntMap, insert}
use carma_streets.Tsc.State.{
  bits_from, process_bitwise_response, ped_map_loop, get_signal_group_to_ped_phase_map,
}

abbrev pub call_bit : ℕ → ℕ → Bool
call_bit val i = (val / 2 ^ i) % 2 == 1

bits_from-elem :
    (left i val offset j : ℕ)
    → elem (j + 1 + offset) (bits_from left i val offset)
      ≡ (leb i j && ltb j (i + left) && call_bit val j)
unfolding bits_from
bits_from-elem zero i val offset j = ground arith
bits_from-elem (suc left) i val offset j =
    let rest = bits_from-elem left (i + 1) val offset j in
    elim (Bool-cases (i == j)) [
      | inl here ↦
          let same : i ≡ j = (==_iff i j).0 here in
          elim (Bool-cases (call_bit val i)) [
            | inl set ↦ let set_j : call_bit val j ≡ true = rw same at set in ground arith
            | inr clear ↦ let clear_j : call_bit val j ≡ false = rw same at clear in ground arith
          ]
      | inr other ↦ elim (Bool-cases (call_bit val i)) [
        | inl set ↦ ground arith
        | inr clear ↦ ground arith
      ]
    ]

-- For a list of call bits the result holds phase `j + 1 + offset` exactly if `j` is below 8 and bit
-- `j` of the value is set.
pub process_bitwise_response-elem :
    (val offset j : ℕ)
    → elem (j + 1 + offset) (process_bitwise_response val offset) ≡ (ltb j 8 && call_bit val j)
unfolding process_bitwise_response
process_bitwise_response-elem val offset j = ground (arith, bits_from-elem 8 0 val offset j)

ped_map_loop_never_ends :
    (fuel : ℕ) (entry : ℕ × ℕ) (rest result : IntMap)
    → ped_map_loop fuel (entry ∷ rest) result ≡ none
unfolding ped_map_loop
ped_map_loop_never_ends zero (phase, sg) rest result = refl
ped_map_loop_never_ends (suc fuel) (phase, sg) rest result =
    ped_map_loop_never_ends fuel (phase, sg) rest (insert sg phase result)

-- The fault: however many rounds it is given, the loop over a map with an entry does not come to its
-- end, since its iterator stays on the first entry.
pub get_ped_phase_map_never_ends :
    (fuel : ℕ) (entry : ℕ × ℕ) (rest : IntMap)
    → get_signal_group_to_ped_phase_map fuel (entry ∷ rest) ≡ none
unfolding get_signal_group_to_ped_phase_map
get_ped_phase_map_never_ends fuel entry rest = ped_map_loop_never_ends fuel entry rest []
