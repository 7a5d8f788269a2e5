-- ===== src/Sensors/Smi330Imu.antt =====
-- Smi330Imu of sensors/sensors/SMI330.{h,cpp}: the accelerometer and the gyroscope of one SMI330 share
-- an output data rate. `usleep` is left out.
use bosch_mems_android_hal.Common.{
  ℕ, zero, suc, ◌/◌, ◌^◌, min, ◌&&◌, Bool, false, Option, none, some, Bytes, codes, leb,
  if◌then◌else◌, to_string,
}
use bosch_mems_android_hal.Hwctl.Stream.{Sysfs, write_file}

pub data Index : Type 0 where
  accel gyro : Index

pub record Smi330Imu : Type 0 where
  pub accel_enabled : Bool
  pub gyro_enabled : Bool
  pub accel_period_ns : ℕ
  pub gyro_period_ns : ℕ

abbrev pub min_sampling_rate_ns : ℕ
min_sampling_rate_ns = 2500000

abbrev pub max_sampling_rate_ns : ℕ
max_sampling_rate_ns = 1280000000

abbrev pub sysfs_odr : Bytes
sysfs_odr = codes "in_sampling_frequency"

abbrev pub sysfs_power_mode : Index → Bytes
sysfs_power_mode accel = codes "in_accel_en"
sysfs_power_mode gyro = codes "in_anglvel_en"

-- The initial values of the members.
unfoldable pub initial_imu : Smi330Imu
initial_imu = record {
  accel_enabled = false;
  gyro_enabled = false;
  accel_period_ns = max_sampling_rate_ns;
  gyro_period_ns = max_sampling_rate_ns;
}

-- The period that counts; `none` where nothing is enabled and the method returns.
unfoldable pub chosen_period : Smi330Imu → Option ℕ
chosen_period imu =
    if imu.accel_enabled && imu.gyro_enabled
    then some (min imu.accel_period_ns imu.gyro_period_ns)
    else if imu.accel_enabled
    then some imu.accel_period_ns
    else if imu.gyro_enabled
    then some imu.gyro_period_ns
    else none

-- The loop over the rates, which halve from the longest on. `1e9 / rate` is cut to an integer.
unfoldable pub odr_loop : ℕ → ℕ → ℕ → ℕ → ℕ
odr_loop zero rate period odr = odr
odr_loop (suc fuel) rate period odr =
    let rest = odr_loop fuel (rate / 2) period odr in
    if leb min_sampling_rate_ns rate then (if leb rate period then 10 ^ 9 / rate else rest) else odr

-- A rate below 2 ^ 31 is below the shortest one after that many halvings.
unfoldable pub odr : ℕ → ℕ
unfolding odr_loop
odr period = odr_loop 31 max_sampling_rate_ns period (10 ^ 9 / max_sampling_rate_ns)

unfoldable pub write_odr : Option ℕ → Bytes → Sysfs → Sysfs
write_odr none device fs = fs
write_odr (some period) device fs = write_file fs device sysfs_odr (to_string (odr period))

unfoldable pub update_sampling_rate : Bytes → Smi330Imu → Sysfs → Sysfs
unfolding chosen_period write_odr
update_sampling_rate device imu fs = write_odr (chosen_period imu) device fs

unfoldable pub set_enabled : Index → Bool → Smi330Imu → Smi330Imu
set_enabled accel enable imu = record imu { accel_enabled = enable }
set_enabled gyro enable imu = record imu { gyro_enabled = enable }

set_period : Index → ℕ → Smi330Imu → Smi330Imu
set_period accel period imu = record imu { accel_period_ns = period }
set_period gyro period imu = record imu { gyro_period_ns = period }

unfoldable pub set_power_mode : Index → Bool → Bytes → Smi330Imu → Sysfs → Smi330Imu × Sysfs
unfolding set_enabled
set_power_mode idx enable device imu fs =
    let imu' = set_enabled idx enable imu in
    let fs' = update_sampling_rate device imu' fs in
    (imu', write_file fs' device (sysfs_power_mode idx) (if enable then codes "3" else codes "0"))

unfoldable pub set_sampling_rate : Index → ℕ → Bytes → Smi330Imu → Sysfs → Smi330Imu × Sysfs
unfolding set_period
set_sampling_rate idx period device imu fs =
    let imu' = set_period idx period imu in (imu', update_sampling_rate device imu' fs)
