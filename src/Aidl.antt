-- ===== src/Aidl.antt =====
-- sensors/aidl: the AIDL service. A Sensor wraps one ISensorHal for the framework, and SensorsHalAidl is
-- the service with its sensors, its direct channels and its wake lock.
pub mod Types
pub mod Float32
pub mod Placement
pub mod Matrix
pub mod Rotation
pub mod Events
pub mod Sensor
pub mod Reports
pub mod SensorRun
pub mod Channels
pub mod Requests
pub mod Rates
pub mod Supply
pub mod Rounds
pub mod WakeLock
pub mod Outstanding
pub mod DirectBuffer
pub mod Decimation
pub mod Service
pub mod AddSensors
pub mod ServiceChannels
pub mod Linked
pub mod Handles
pub mod Latency
