-- ===== src/Spat/Message.antt =====
-- src/models/spat.cpp, the message object: initialisation, time stamps and the update from the
-- controller; and the time stamps of intersection_state.cpp. `now` is the reading of the streets clock in
-- ms, `year_begin` the start of its year and `day_of_year` what the C library gives for its day.
use Prim.Native.String.{String}
use text.Mathlib.Text.{◌==◌ as str_eq}
use carma_streets.Base.{
  ℕ, ◌+◌, ◌*◌, ◌/◌, ◌%◌, ◌==◌, Bool, true, false, ◌||◌, List, [], ◌∷◌, if◌then◌else◌, u8, u16,
  Outcome, done, thrown, within, and_then, not_initialized, no_intersection,
}
use carma_streets.Plan.{is_empty}
use carma_streets.Spat.Movement.{MovementPhaseState, MovementState}
use carma_streets.Spat.Ntcip.{Ntcip1202Ext, get_timestamp_seconds_of_day}
use carma_streets.Spat.Intersection.{
  IntersectionState, initialize_movement_states, update_movements,
}
pub mod Stamps
pub mod Updated

pub record SpatMessage : Type 0 where
  pub timestamp : ℕ  -- uint32_t, minute of the year
  pub name : String
  pub intersections : List IntersectionState
  pub phase_to_signal_group : List (ℕ × ℕ)

abbrev pub u32 : ℕ → ℕ
u32 n = n % 4294967296

module _ (now day_of_year : ℕ) where
  unfoldable pub stamp_ntcip : ℕ → ℕ → IntersectionState → IntersectionState
  stamp_ntcip second_of_day millisecond_of_second i = record i {
    moy = u32 (day_of_year * 24 * 60 + second_of_day / 60);
    time_stamp = u16 (second_of_day % 60 * 1000 + millisecond_of_second);
  }

  unfoldable pub stamp_local : IntersectionState → IntersectionState
  stamp_local i = record i {
    moy = u32 (day_of_year * 60 * 24 + now / 3600000 % 24 * 60 + now / 60000 % 60);
    time_stamp = u16 (now % 1000 + now / 1000 % 60 * 1000);
  }

-- The uint64_t sum does not wrap for any date that fits.
unfoldable pub get_epoch_timestamp : ℕ → IntersectionState → ℕ
get_epoch_timestamp year_begin i = year_begin + i.moy * 60 * 1000 + i.time_stamp

-- The members' initialisers are 0. `status` has none, and `unset_status` stands for it.
unfoldable pub initialize_intersection : ℕ → String → ℕ → List (ℕ × ℕ) → SpatMessage → SpatMessage
initialize_intersection unset_status name id phases m = record m {
  intersections =
      record {
        name = name;
        id = u16 id;
        revision = 0;
        status = unset_status;
        moy = 0;
        time_stamp = 0;
        enabled_lanes = [];
        states = initialize_movement_states phases;
        maneuver_assist_list = [];
      }
      ∷ [];
  phase_to_signal_group = phases;
}

-- The front intersection gets a new time, and the message its minute of the year.
unfoldable pub set_timestamp :
    (IntersectionState → IntersectionState) → SpatMessage → Outcome SpatMessage
set_timestamp stamp m = elim m.intersections [
  | [] ↦ thrown no_intersection m
  | i ∷ is ↦ done (record m { intersections = stamp i ∷ is; timestamp = (stamp i).moy })
]

-- `front()` of an empty list is undefined; initialize_intersection fills both members together.
unfoldable pub is_uninitialized : SpatMessage → Bool
is_uninitialized m =
    is_empty m.phase_to_signal_group
    || elim m.intersections [ [] ↦ true | i ∷ is ↦ str_eq i.name "" || i.id == 0 ]

module _ (tenths : ℕ → ℕ → ℕ → ℕ) (now day_of_year : ℕ) (garbage : MovementPhaseState) where
  unfoldable pub update_intersection_state : Ntcip1202Ext → SpatMessage → Outcome SpatMessage
  update_intersection_state d m = elim m.intersections [
    | [] ↦ thrown no_intersection m
    | i ∷ is ↦ elim (update_movements tenths now garbage d m.phase_to_signal_group i.states) [
      | thrown x ms ↦ thrown x (record m { intersections = record i { states = ms } ∷ is })
      | done ms ↦ done (record m {
        intersections =
            record i { states = ms; status = d.spat_intersection_status; revision = 1 } ∷ is;
      })
    ]
  ]

  -- The milliseconds of the block are passed on in their byte order.
  unfoldable pub update : Ntcip1202Ext → Bool → SpatMessage → Outcome SpatMessage
  update d use_ntcip_timestamp m =
      if is_uninitialized m
      then thrown not_initialized m
      else and_then
          (if use_ntcip_timestamp
            then set_timestamp
                (stamp_ntcip now day_of_year (get_timestamp_seconds_of_day d) d.spat_timestamp_msec)
                m
            else set_timestamp (stamp_local now day_of_year) m)
          (update_intersection_state d)
