-- ===== src/Sensors/Data.antt =====
-- The constructors of the sensor classes of sensors/sensors/SMI*.{h,cpp}: the data they fill in.
use bosch_mems_android_hal.Common.{ℕ, List, [], ◌∷◌, Bytes, codes, FloatOps, pos}
use bosch_mems_android_hal.Core.Types.{
  BoschSensorType, SensorReportingMode, SensorData, default_sensor_data,
}

abbrev accel_files : List Bytes
accel_files = codes "in_accel_x_raw" ∷ codes "in_accel_y_raw" ∷ codes "in_accel_z_raw" ∷ []

abbrev gyro_files : List Bytes
gyro_files = codes "in_anglvel_x_raw" ∷ codes "in_anglvel_y_raw" ∷ codes "in_anglvel_z_raw" ∷ []

module _ {F : Type 0} (ops : FloatOps F) where
  -- An integer argument where a `float` is expected.
  abbrev int : ℕ → F
  int n = ops.of_int (pos n)

  unfoldable pub gravity_to_acceleration : F → F
  gravity_to_acceleration g = ops.mul g (ops.ratio 980665 100000)

  unfoldable pub degree_to_rad : F → F
  degree_to_rad d = ops.div (ops.mul d ops.pi) (ops.ratio 180 1)

  -- What the constructors of the composite sensors have in common, from the data of the accelerometer
  -- and the gyroscope that they are built on.
  composite_data : BoschSensorType → Bytes → ℕ → SensorData F → SensorData F → SensorData F
  unfolding default_sensor_data
  composite_data t name min_delay_us acc gyr = record (default_sensor_data ops t) {
    sensor_name = name;
    sensor_type = t;
    min_delay_us = min_delay_us;
    max_delay_us = 20000;
    power = ops.add acc.power gyr.power;
    range = acc.range;
    resolution = acc.resolution;
    report_mode = SensorReportingMode.continuous;
  }

  unfoldable pub smi230_acc : SensorData F
  unfolding default_sensor_data
  smi230_acc = record (default_sensor_data ops BoschSensorType.accel) {
    driver_name = codes "smi230acc";
    sensor_name = codes "SMI230 BOSCH Accelerometer Sensor";
    sysfs_raw = accel_files;
    temperature_sysfs_raw = codes "in_temp_object_raw";
    sensor_type = BoschSensorType.accel;
    min_delay_us = 10000;
    max_delay_us = 2000000;
    power = ops.ratio 2 10;
    range = gravity_to_acceleration (int 4);
    resolution = gravity_to_acceleration (ops.ratio 1 8192);
    temperature_scale = ops.ratio 1 1000;
    temperature_offset = int 0;
    report_mode = SensorReportingMode.continuous;
  }

  unfoldable pub smi230_gyro : SensorData F
  unfolding default_sensor_data
  smi230_gyro = record (default_sensor_data ops BoschSensorType.gyro) {
    driver_name = codes "smi230gyro";
    sensor_name = codes "SMI230 BOSCH Gyroscope Sensor";
    sysfs_raw = gyro_files;
    temperature_sysfs_raw = [];
    sensor_type = BoschSensorType.gyro;
    min_delay_us = 10000;
    max_delay_us = 2000000;
    power = ops.ratio 5 1;
    range = degree_to_rad (int 2000);
    resolution = degree_to_rad (ops.ratio 100 1638);
    temperature_scale = ops.ratio 0 1;
    temperature_offset = ops.ratio 0 1;
    report_mode = SensorReportingMode.continuous;
  }

  unfoldable pub smi240_acc : SensorData F
  unfolding default_sensor_data
  smi240_acc = record (default_sensor_data ops BoschSensorType.accel) {
    driver_name = codes "smi240";
    sensor_name = codes "SMI240 BOSCH Accelerometer Sensor";
    sysfs_raw = accel_files;
    temperature_sysfs_raw = codes "in_temp_object_raw";
    sensor_type = BoschSensorType.accel;
    min_delay_us = 5000;
    max_delay_us = 2000000;
    power = ops.ratio 5 1;
    range = gravity_to_acceleration (int 16);
    resolution = gravity_to_acceleration (ops.ratio 1 2000);
    temperature_scale = ops.ratio 1 256;
    temperature_offset = ops.mul (ops.ratio 25 1) (int 256);
    report_mode = SensorReportingMode.continuous;
  }

  unfoldable pub smi240_gyro : SensorData F
  unfolding default_sensor_data
  smi240_gyro = record (default_sensor_data ops BoschSensorType.gyro) {
    driver_name = codes "smi240";
    sensor_name = codes "SMI240 BOSCH Gyroscope Sensor";
    sysfs_raw = gyro_files;
    temperature_sysfs_raw = codes "in_temp_object_raw";
    sensor_type = BoschSensorType.gyro;
    min_delay_us = 5000;
    max_delay_us = 2000000;
    power = ops.ratio 5 1;
    range = degree_to_rad (int 300);
    resolution = degree_to_rad (ops.ratio 1 100);
    temperature_scale = ops.ratio 1 256;
    temperature_offset = ops.mul (ops.ratio 25 1) (int 256);
    report_mode = SensorReportingMode.continuous;
  }

  unfoldable pub smi330_acc : SensorData F
  unfolding default_sensor_data
  smi330_acc = record (default_sensor_data ops BoschSensorType.accel) {
    driver_name = codes "smi330";
    sensor_name = codes "SMI330 BOSCH Accelerometer Sensor";
    sysfs_raw = accel_files;
    temperature_sysfs_raw = codes "in_temp_object_raw";
    sensor_type = BoschSensorType.accel;
    min_delay_us = 5000;
    max_delay_us = 1280000;
    power = ops.ratio 4 10;
    range = gravity_to_acceleration (int 8);
    resolution = gravity_to_acceleration (ops.ratio 1 4096);
    temperature_scale = ops.ratio 1 512;
    temperature_offset = ops.mul (ops.ratio 23 1) (int 512);
    report_mode = SensorReportingMode.continuous;
  }

  unfoldable pub smi330_gyro : SensorData F
  unfolding default_sensor_data
  smi330_gyro = record (default_sensor_data ops BoschSensorType.gyro) {
    driver_name = codes "smi330";
    sensor_name = codes "SMI330 BOSCH Gyroscope Sensor";
    sysfs_raw = gyro_files;
    temperature_sysfs_raw = codes "in_temp_object_raw";
    sensor_type = BoschSensorType.gyro;
    min_delay_us = 5000;
    max_delay_us = 1280000;
    power = ops.ratio 4 10;
    range = degree_to_rad (int 250);
    resolution = degree_to_rad (ops.ratio 1000 131072);
    temperature_scale = ops.ratio 1 512;
    temperature_offset = ops.mul (ops.ratio 23 1) (int 512);
    report_mode = SensorReportingMode.continuous;
  }

  unfoldable pub smi230_acc_uncalibrated : SensorData F
  unfolding smi230_acc
  smi230_acc_uncalibrated = record smi230_acc {
    sensor_name = codes "SMI230 BOSCH Accelerometer Uncalibrated Sensor";
    sensor_type = BoschSensorType.accel_uncalibrated;
  }

  unfoldable pub smi230_gyro_uncalibrated : SensorData F
  unfolding smi230_gyro
  smi230_gyro_uncalibrated = record smi230_gyro {
    sensor_name = codes "SMI230 BOSCH Gyroscope Uncalibrated Sensor";
    sensor_type = BoschSensorType.gyro_uncalibrated;
  }

  unfoldable pub smi240_acc_uncalibrated : SensorData F
  unfolding smi240_acc
  smi240_acc_uncalibrated = record smi240_acc {
    sensor_name = codes "SMI240 BOSCH Accelerometer Uncalibrated Sensor";
    sensor_type = BoschSensorType.accel_uncalibrated;
  }

  unfoldable pub smi240_gyro_uncalibrated : SensorData F
  unfolding smi240_gyro
  smi240_gyro_uncalibrated = record smi240_gyro {
    sensor_name = codes "SMI240 BOSCH Gyroscope Uncalibrated Sensor";
    sensor_type = BoschSensorType.gyro_uncalibrated;
  }

  unfoldable pub smi330_acc_uncalibrated : SensorData F
  unfolding smi330_acc
  smi330_acc_uncalibrated = record smi330_acc {
    sensor_name = codes "SMI330 BOSCH Accelerometer Uncalibrated Sensor";
    sensor_type = BoschSensorType.accel_uncalibrated;
  }

  unfoldable pub smi330_gyro_uncalibrated : SensorData F
  unfolding smi330_gyro
  smi330_gyro_uncalibrated = record smi330_gyro {
    sensor_name = codes "SMI330 BOSCH Gyroscope Uncalibrated Sensor";
    sensor_type = BoschSensorType.gyro_uncalibrated;
  }

  unfoldable pub smi230_linear_acc : SensorData F → SensorData F → SensorData F
  unfolding composite_data
  smi230_linear_acc =
      composite_data BoschSensorType.linear_accel (codes "SMI230 BOSCH Linear Accelerometer Sensor")
        10000

  unfoldable pub smi230_gravity : SensorData F → SensorData F → SensorData F
  unfolding composite_data
  smi230_gravity =
      composite_data BoschSensorType.gravity (codes "SMI230 BOSCH Gravity Sensor") 10000

  unfoldable pub smi240_linear_acc : SensorData F → SensorData F → SensorData F
  unfolding composite_data
  smi240_linear_acc =
      composite_data BoschSensorType.linear_accel (codes "SMI240 BOSCH Linear Accelerometer Sensor")
        5000

  unfoldable pub smi240_gravity : SensorData F → SensorData F → SensorData F
  unfolding composite_data
  smi240_gravity = composite_data BoschSensorType.gravity (codes "SMI240 BOSCH Gravity Sensor") 5000

  unfoldable pub smi330_linear_acc : SensorData F → SensorData F → SensorData F
  unfolding composite_data
  smi330_linear_acc =
      composite_data BoschSensorType.linear_accel (codes "SMI330 BOSCH Linear Accelerometer Sensor")
        5000

  unfoldable pub smi330_gravity : SensorData F → SensorData F → SensorData F
  unfolding composite_data
  smi330_gravity = composite_data BoschSensorType.gravity (codes "SMI330 BOSCH Gravity Sensor") 5000
