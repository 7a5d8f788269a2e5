-- ===== src/Sensors.antt =====
-- sensors/sensors: the supported devices, what their drivers write, and the list of those present.
pub mod Data
pub mod Smi330Imu
pub mod Odr
pub mod Driver
pub mod SensorList
pub mod Available
