-- ===== src/SignalOpt.antt =====
-- streets_utils/streets_signal_optimization and signal_opt_service: from the SPaT message and the
-- vehicles to the desired phase plan that delays the vehicles least.
use Prim.Native.String.{String}
use carma_streets.Base.{ℕ}
use carma_streets.Double.{Double}
pub mod BasePlan
pub mod Queues
pub mod Candidates
pub mod Generator
pub mod Groups
pub mod Arbitrator

-- A pair of signal groups that do not conflict; the second is 0 if there is only one.
pub record MovementGroup : Type 0 where
  pub name : String
  pub first : ℕ
  pub second : ℕ

-- Times in ms, the radius in m.
pub record Configuration (F : Type 0) : Type 0 where
  pub initial_green_buffer : ℕ
  pub final_green_buffer : ℕ
  pub et_inaccuracy_buffer : ℕ
  pub queue_max_time_headway : ℕ
  pub so_radius : F
  pub min_green : ℕ
  pub max_green : ℕ
  pub desired_future_move_group_count : ℕ  -- uint8_t

-- What the generator sets when `set_configuration` was not called.
unfoldable pub default_generator_configuration : {F : Type 0} → Double F → Configuration F
default_generator_configuration d = record {
  initial_green_buffer = 2000;
  final_green_buffer = 2000;
  et_inaccuracy_buffer = 2000;
  queue_max_time_headway = 3000;
  so_radius = d.of_ℕ 200;
  min_green = 5000;
  max_green = 120000;
  desired_future_move_group_count = 1;
}
