-- ===== src/Subhal.antt =====
-- The sub-HAL of sensors/multihal/common.
pub mod Sensor
pub mod Placement
pub mod Reports
pub mod Run
pub mod Service
pub mod Channels
pub mod AddSensors
pub mod Same
pub mod SameReports
pub mod SameRun
pub mod SameSensor
pub mod SameMaps
pub mod SameService
pub mod SameAdd
pub mod Proxied
