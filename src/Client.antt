-- ===== src/Client.antt =====
-- src/runtime_client: the calibration of the speech gate and the pump that uses it.
pub mod Calibration
pub mod Bridge
pub mod Events
