-- ===== src/Spat.antt =====
-- streets_utils/streets_signal_phase_and_timing: the SPaT message of the intersection. Each child is
-- one class of the library, and the children of a child hold what is proved of it.
pub mod Time
pub mod Movement
pub mod Ntcip
pub mod Intersection
pub mod Message
pub mod Projection
