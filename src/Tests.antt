-- ===== src/Tests.antt =====
-- Runs of the theorems on concrete inputs.
mod AllStopRuns
mod SpatRuns
mod SnmpRuns
mod TscRuns
mod VehicleRuns
mod OptRuns
mod SelectRuns
