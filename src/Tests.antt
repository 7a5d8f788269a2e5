-- ===== src/Tests.antt =====
-- Concrete values, and the theorems at them: that their hypotheses can hold.
mod Values
mod Core
mod Hwctl
mod Sensors
mod Placement
mod Aidl
mod Service
mod Subhal
mod Hidl
mod HalProxy
mod Convert
mod Posts
mod Multihal
