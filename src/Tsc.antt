-- ===== src/Tsc.antt =====
-- tsc_client_service/src: the service between carma-streets and the traffic signal controller.
pub mod Snmp
pub mod State
pub mod Fixed
pub mod Monitor
pub mod Control
pub mod Executor
