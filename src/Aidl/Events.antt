-- ===== src/Aidl/Events.antt =====
-- areAlmostEqual, gyroUncalibratedFix and Sensor::readEvents of sensors/aidl/Sensor.cpp.
use bosch_mems_android_hal.Common.{
  ℕ, Bool, List, [], ◌∷◌, Option, none, some, codes, has_infix, ◌==◌, if◌then◌else◌, FloatOps, pos,
}
use bosch_mems_android_hal.Core.Types.{SensorValues}
use bosch_mems_android_hal.Aidl.Types.{
  Interface, SensorInfo, Payload, empty, scalar, vec3, uncal, Event,
}

prepend {ℓ κ} : {A : Type ℓ} {B : Type κ} → A → Option (List A × B) → Option (List A × B)
prepend x none = none
prepend x (some (xs, b)) = some (x ∷ xs, b)

-- The payloads of the three kinds of values; with another number of values the event keeps none.
module _ {F : Type 0} where
  unfoldable pub accel_payload : List F → Payload F
  accel_payload (x ∷ y ∷ z ∷ []) = uncal x y z
  accel_payload _ = empty

  unfoldable pub vec3_payload : List F → Payload F
  vec3_payload (x ∷ y ∷ z ∷ []) = vec3 x y z
  vec3_payload _ = empty

module _ {F : Type 0} where
  make_event : SensorInfo F → ℕ → Payload F → Event F
  make_event info timestamp p = record {
    timestamp = timestamp;
    sensor_handle = info.sensor_handle;
    sensor_type = info.sensor_type;
    payload = p;
  }

  with_payload :
      SensorInfo F
      → ℕ
      → Option (Payload F × F)
      → (F → Option (List (Event F) × F))
      → Option (List (Event F) × F)
  with_payload info t none next = none
  with_payload info t (some (p, last)) next = prepend (make_event info t p) (next last)

module _ {F : Type 0} (ops : FloatOps F) where
  unfoldable pub are_almost_equal : F → F → Bool
  are_almost_equal a b = ops.lt (ops.abs (ops.sub a b)) (ops.ratio 1 100000)

  unfoldable pub gyro_uncalibrated_fix : SensorInfo F → F
  gyro_uncalibrated_fix info =
      if has_infix info.name (codes "SMI230 BOSCH") then info.resolution else ops.of_int (pos 0)

  unfoldable pub gyro_payload : SensorInfo F → List F → Payload F
  gyro_payload info (x ∷ y ∷ z ∷ []) =
      let fix = gyro_uncalibrated_fix info in uncal (ops.add x fix) (ops.add y fix) (ops.add z fix)
  gyro_payload info _ = empty

  -- The temperature and the static `lastTemperature`. `none` is the read of data[0] past the end.
  temperature_payload : List F → F → Option (Payload F × F)
  temperature_payload [] last = none
  temperature_payload (t ∷ ts) last =
      if are_almost_equal t last then some (empty, last) else some (scalar t, t)

module _ {F : Type 0} (ops : FloatOps F) (api : Interface) where
  unfoldable pub value_payload : SensorInfo F → List F → F → Option (Payload F × F)
  unfolding temperature_payload
  value_payload info xs last =
      if info.sensor_type == api.type_ambient_temperature
      then temperature_payload ops xs last
      else if info.sensor_type == api.type_gyroscope_uncalibrated
      then some (gyro_payload ops info xs, last)
      else if info.sensor_type == api.type_accelerometer_uncalibrated
      then some (accel_payload xs, last)
      else some (vec3_payload xs, last)

  -- The loop of readEvents over the values that the sensor returned.
  unfoldable pub read_events :
      SensorInfo F → F → List (SensorValues F) → Option (List (Event F) × F)
  unfolding with_payload make_event prepend
  read_events info last [] = some ([], last)
  read_events info last (v ∷ vs) =
      with_payload info v.timestamp (value_payload info v.values last) (λ l. read_events info l vs)
