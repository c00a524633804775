-- ===== src/Base/Results.antt =====
-- Exceptions as values. `Result` is for code that changes no state before it throws; `Outcome` keeps
-- the state that an object is left in when a method throws half way.
use mathlib.Core.Path.{◌≡◌, refl}
use mathlib.Core.Logic.{◌⊎◌, inl, inr}
use mathlib.Core.Option.{Option, none, some}

-- One constructor for each exception class, with the `throw` that raised it.
pub data Fault : Type 0 where
  no_movement empty_signal_groups too_many_events : Fault
  not_green_or_red not_red_or_yellow last_not_red future_not_red : Fault
  no_phasetime : Fault
  null_pointer no_states no_previous_green not_upcoming : Fault
  too_many_next_phases no_next_phases bad_green_phases no_green_phases : Fault
  unsupported_state no_following_phases no_channel_phase no_phase_number : Fault
  no_signal_group invalid_id snmp_failed repeated_signal_group : Fault
  no_entry_lane no_link_lane no_group_id mixed_group_ids no_movement_state no_spat : Fault
  not_entering no_entering_vehicles eet_after_et : Fault
  unknown_group empty_movement overlapping_greens empty_base_plan no_configuration : Fault
  no_clearance no_lane_group no_lane_mapping no_vehicle empty_schedule : Fault
  command_expired command_rejected : Fault
  no_valid_option vehicle_list_empty vehicle_not_found not_initialized no_intersection : Fault

pub data Result {ℓ} (A : Type ℓ) : Type ℓ where
  ok : A → Result A
  err : Fault → Result A

infixl 5 ◌>>=◌
abbrev pub ◌>>=◌ {ℓ κ} : {S : Type ℓ} {T : Type κ} → Result S → (next : S → Result T) → Result T
err x >>= next = err x
ok s >>= next = next s

abbrev pub map_result {ℓ κ} : {S : Type ℓ} {T : Type κ} → (S → T) → Result S → Result T
map_result f (ok s) = ok (f s)
map_result f (err e) = err e

abbrev pub or_fault {ℓ} : {A : Type ℓ} → Option A → Fault → Result A
or_fault none e = err e
or_fault (some a) e = ok a

pub data Outcome {ℓ} (S : Type ℓ) : Type ℓ where
  done : S → Outcome S
  thrown : Fault → S → Outcome S

-- The state after the call, whichever way it ended.
abbrev pub final {ℓ} : {S : Type ℓ} → Outcome S → S
final (done s) = s
final (thrown e s) = s

-- The next statement runs only if the one before returned.
abbrev pub and_then {ℓ} : {S : Type ℓ} → Outcome S → (S → Outcome S) → Outcome S
and_then (done s) f = f s
and_then (thrown e s) f = thrown e s

-- A change of one part of an object is a change of the whole.
abbrev pub within {ℓ κ} : {S : Type ℓ} {T : Type κ} → (S → T) → Outcome S → Outcome T
within f (done s) = done (f s)
within f (thrown e s) = thrown e (f s)

pub final-within {ℓ κ} :
    {S : Type ℓ} {T : Type κ} (f : S → T) (o : Outcome S) → final (within f o) ≡ f (final o)
final-within f (done s) = refl
final-within f (thrown e s) = refl

pub within-eq-done {ℓ κ} :
    {S : Type ℓ} {T : Type κ} (f : S → T) (o : Outcome S) {t : T}
    → within f o ≡ done t
    → (s : S) × (o ≡ done s) × (f s ≡ t)
within-eq-done f (done s) h = (s, refl, cc)
within-eq-done f (thrown e s) h = cc

pub and_then-eq-done {ℓ} :
    {S : Type ℓ} (o : Outcome S) (f : S → Outcome S) {t : S}
    → and_then o f ≡ done t
    → (s : S) × (o ≡ done s) × (f s ≡ done t)
and_then-eq-done (done s) f h = (s, refl, h)
and_then-eq-done (thrown e s) f h = cc

-- A property that every step keeps, whichever way it ends, holds after the sequence.
pub final-and_then {ℓ κ} :
    {S : Type ℓ} (P : S → Type κ) (o : Outcome S) (f : S → Outcome S)
    → P (final o)
    → ((s : S) → P s → P (final (f s)))
    → P (final (and_then o f))
final-and_then P (done s) f h k = k s h
final-and_then P (thrown e s) f h k = h

pub Result-cases {ℓ} :
    {A : Type ℓ} (r : Result A) → ((a : A) × (r ≡ ok a)) ⊎ ((e : Fault) × (r ≡ err e))
Result-cases (ok a) = inl (a, refl)
Result-cases (err e) = inr (e, refl)

pub Outcome-cases {ℓ} :
    {S : Type ℓ} (o : Outcome S)
    → ((s : S) × (o ≡ done s)) ⊎ ((e : Fault) × (s : S) × (o ≡ thrown e s))
Outcome-cases (done s) = inl (s, refl)
Outcome-cases (thrown e s) = inr (e, s, refl)
