-- ===== src/Hidl.antt =====
-- The HIDL service of sensors/2.X.
pub mod Sensor
pub mod Service
pub mod Loops
pub mod Channels
pub mod Initialize
pub mod Versions
pub mod Same
pub mod Started
