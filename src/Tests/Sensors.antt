-- ===== src/Tests/Sensors.antt =====
-- The theorems on sensors/sensors at concrete values.
use bosch_mems_android_hal.Common.{
  ℕ, ◌≡◌, ◌⊎◌, ◌↔◌, refl, true, false, List, [], ◌∷◌, Option, some, Bytes, codes, get_elem?,
  to_string,
}
use bosch_mems_android_hal.Hwctl.Stream.{Sysfs}
use bosch_mems_android_hal.Sensors.Smi330Imu.{Index, Smi330Imu, odr, set_power_mode}
use bosch_mems_android_hal.Sensors.Odr.{IsSharedPeriod, set_power_mode-written}
use bosch_mems_android_hal.Sensors.SensorList.{
  Sensor, CompositeSensor, make_sensor_list, get_available_sensors,
}
use bosch_mems_android_hal.Sensors.Available.{
  Probed, AllAvailable, offers_composite, get_available_sensors-offers,
}
use bosch_mems_android_hal.Tests.Values.{ops, sysfs}

-- 12 ms is between 10 ms and 20 ms.
abbrev imu : Smi330Imu
imu = record {
  accel_enabled = false;
  gyro_enabled = true;
  accel_period_ns = 5000000;
  gyro_period_ns = 20000000;
}

set_power_mode-written_example :
    let (imu', fs') = set_power_mode Index.accel true (codes "/d/") imu sysfs in
    let power : Bytes × Bytes = (codes "/d/in_accel_en", codes "3") in
    (imu'.accel_period_ns ≡ 5000000)
    × (imu'.gyro_period_ns ≡ 20000000)
    × (((imu'.accel_enabled ≡ false) × (imu'.gyro_enabled ≡ false) × (fs'.written ≡ power ∷ []))
        ⊎ ((q : ℕ) × IsSharedPeriod imu' q
            × (fs'.written ≡ power ∷ (codes "/d/in_sampling_frequency", to_string (odr q)) ∷ [])))
set_power_mode-written_example =
    set_power_mode-written Index.accel true (codes "/d/") imu sysfs
      (record { opens = λ p. refl; takes = λ p c. refl })

-- A device directory with one device, whose name starts with smi330.
abbrev smi330_sysfs : Sysfs
smi330_sysfs = record sysfs { content = λ p. codes "smi330\n" }

abbrev entries : Option (List Bytes)
entries = some (codes "." ∷ codes "iio:device0" ∷ [])

get_available_sensors-offers_example :
    let (l', ps) = get_available_sensors smi330_sysfs entries (make_sensor_list ops) in
    ((j : ℕ) (s : Sensor ℕ)
      → get_elem? (make_sensor_list ops).sensors j ≡ some s
      → Probed smi330_sysfs entries j s (l'.sensors, ps) j)
    × ((j : ℕ) (c : CompositeSensor ℕ)
        → get_elem? (make_sensor_list ops).composite_sensors j ≡ some c
        → (offers_composite j ps ≡ true) ↔ AllAvailable l'.sensors c.dependency_list)
get_available_sensors-offers_example =
    get_available_sensors-offers smi330_sysfs entries (make_sensor_list ops)
