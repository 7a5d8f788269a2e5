-- ===== src/Core.antt =====
-- sensors/core: what a sensor is, the enable and rate logic that all sensors share, and the buffer of
-- a direct channel.
pub mod Types
pub mod SensorCore
pub mod Rate
pub mod Power
pub mod DirectChannel
pub mod Ring
pub mod Composite
pub mod Shared
pub mod World
