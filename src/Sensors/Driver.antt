-- ===== src/Sensors/Driver.antt =====
-- The sensor classes of sensors/sensors/SMI*.{h,cpp} and their setPowerMode and setSamplingRate.
-- `usleep` is left out.
use bosch_mems_android_hal.Common.{ℕ, Bool, Bytes, codes, List, [], ◌∷◌, if◌then◌else◌, FloatOps}
use bosch_mems_android_hal.Hwctl.Stream.{Sysfs, write_file}
use bosch_mems_android_hal.Core.Types.{SensorData}
use bosch_mems_android_hal.Core.SensorCore.{Call, set_power_mode, set_sampling_rate}
use bosch_mems_android_hal.Sensors.Data
use bosch_mems_android_hal.Sensors.Smi330Imu
use bosch_mems_android_hal.Sensors.Smi330Imu.{Smi330Imu, Index}

pub data SensorClass : Type 0 where
  smi330_acc smi330_gyro smi240_acc smi240_gyro smi230_acc smi230_gyro : SensorClass
  smi330_acc_uncalibrated smi330_gyro_uncalibrated : SensorClass
  smi240_acc_uncalibrated smi240_gyro_uncalibrated : SensorClass
  smi230_acc_uncalibrated smi230_gyro_uncalibrated : SensorClass

-- What the drivers act on: the sysfs files, and the one Smi330Imu of the process.
pub record Board : Type 0 where
  pub fs : Sysfs
  pub imu : Smi330Imu

-- Smi230Acc::setPowerMode.
unfoldable pub smi230_acc_power : Bool → Bytes → Sysfs → Sysfs
smi230_acc_power enable device fs =
    let fs' = write_file fs device (codes "odr") (codes "200Hz") in
    write_file fs' device (codes "pwr") (if enable then codes "normal" else codes "suspend")

-- Smi230Gyro::setPowerMode.
unfoldable pub smi230_gyro_power : Bool → Bytes → Sysfs → Sysfs
smi230_gyro_power enable device fs =
    let fs' = write_file fs device (codes "bw_odr") (codes "bw64_odr200") in
    write_file fs' device (codes "pwr") (if enable then codes "normal" else codes "suspend")

-- Smi330Gyro::setScale.
unfoldable pub set_scale : Bytes → Sysfs → Sysfs
set_scale device fs = write_file fs device (codes "in_anglvel_scale") (codes "0.007629395")

with_imu : Smi330Imu × Sysfs → Board
with_imu (imu, fs) = record { fs = fs; imu = imu }

-- Smi330Acc::setPowerMode and Smi330Gyro::setPowerMode.
smi330_acc_power : Bool → Bytes → Board → Board
unfolding with_imu
smi330_acc_power enable device b =
    with_imu (Smi330Imu.set_power_mode Index.accel enable device b.imu b.fs)

smi330_gyro_power : Bool → Bytes → Board → Board
unfolding with_imu
smi330_gyro_power enable device b = with_imu (
    Smi330Imu.set_power_mode Index.gyro enable device b.imu
      (if enable then set_scale device b.fs else b.fs))

-- Smi330Acc::setSamplingRate and Smi330Gyro::setSamplingRate.
smi330_rate : Index → ℕ → Bytes → Board → Board
unfolding with_imu
smi330_rate idx period device b =
    with_imu (Smi330Imu.set_sampling_rate idx period device b.imu b.fs)

-- Where a class has no method of its own, that of SensorCore does nothing.
pub data Driver : Type 0 where
  smi230_acc smi230_gyro smi240 smi330_acc smi330_gyro : Driver

driver : SensorClass → Driver
driver SensorClass.smi330_acc = Driver.smi330_acc
driver SensorClass.smi330_gyro = Driver.smi330_gyro
driver SensorClass.smi240_acc = Driver.smi240
driver SensorClass.smi240_gyro = Driver.smi240
driver SensorClass.smi230_acc = Driver.smi230_acc
driver SensorClass.smi230_gyro = Driver.smi230_gyro
driver SensorClass.smi330_acc_uncalibrated = Driver.smi330_acc
driver SensorClass.smi330_gyro_uncalibrated = Driver.smi330_gyro
driver SensorClass.smi240_acc_uncalibrated = Driver.smi240
driver SensorClass.smi240_gyro_uncalibrated = Driver.smi240
driver SensorClass.smi230_acc_uncalibrated = Driver.smi230_acc
driver SensorClass.smi230_gyro_uncalibrated = Driver.smi230_gyro

driver_call : Driver → Bytes → Call → Board → Board
unfolding smi330_acc_power smi330_gyro_power smi330_rate smi230_acc_power smi230_gyro_power
driver_call Driver.smi230_acc device (set_power_mode b) board = record board {
  fs = smi230_acc_power b device board.fs;
}
driver_call Driver.smi230_acc device (set_sampling_rate p) board = board
driver_call Driver.smi230_gyro device (set_power_mode b) board = record board {
  fs = smi230_gyro_power b device board.fs;
}
driver_call Driver.smi230_gyro device (set_sampling_rate p) board = board
driver_call Driver.smi240 device c board = board
driver_call Driver.smi330_acc device (set_power_mode b) board = smi330_acc_power b device board
driver_call Driver.smi330_acc device (set_sampling_rate p) board =
    smi330_rate Index.accel p device board
driver_call Driver.smi330_gyro device (set_power_mode b) board = smi330_gyro_power b device board
driver_call Driver.smi330_gyro device (set_sampling_rate p) board =
    smi330_rate Index.gyro p device board

-- The calls that a core makes, carried out in order on a device of a class.
unfoldable pub carry_out : SensorClass → Bytes → List Call → Board → Board
unfolding driver driver_call
carry_out c device [] board = board
carry_out c device (call ∷ calls) board =
    carry_out c device calls (driver_call (driver c) device call board)

module _ {F : Type 0} (ops : FloatOps F) where
  -- The data that the constructor of a class leaves.
  unfoldable pub class_data : SensorClass → SensorData F
  class_data SensorClass.smi330_acc = Data.smi330_acc ops
  class_data SensorClass.smi330_acc_uncalibrated = Data.smi330_acc_uncalibrated ops
  class_data SensorClass.smi330_gyro = Data.smi330_gyro ops
  class_data SensorClass.smi330_gyro_uncalibrated = Data.smi330_gyro_uncalibrated ops
  class_data SensorClass.smi240_acc = Data.smi240_acc ops
  class_data SensorClass.smi240_acc_uncalibrated = Data.smi240_acc_uncalibrated ops
  class_data SensorClass.smi240_gyro = Data.smi240_gyro ops
  class_data SensorClass.smi240_gyro_uncalibrated = Data.smi240_gyro_uncalibrated ops
  class_data SensorClass.smi230_acc = Data.smi230_acc ops
  class_data SensorClass.smi230_acc_uncalibrated = Data.smi230_acc_uncalibrated ops
  class_data SensorClass.smi230_gyro = Data.smi230_gyro ops
  class_data SensorClass.smi230_gyro_uncalibrated = Data.smi230_gyro_uncalibrated ops
