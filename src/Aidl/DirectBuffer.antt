-- ===== src/Aidl/DirectBuffer.antt =====
-- writeToDirectBuffer of sensors/aidl/include/sensors-impl/SensorsHalAidl.h, on the table of the direct
-- channels. `none` is the failure of EventPayload's get on another kind of payload, and the overflow of a count
-- (int32_t) or of its product with the period (int64_t).
use bosch_mems_android_hal.Common.{
  ℕ, ◌+◌, ◌*◌, ◌^◌, leb, Bool, true, false, ◌||◌, List, [], ◌∷◌, Option, none, some, Map, lookup_or,
  insert, any_of, ltb, ◌==◌, if◌then◌else◌,
}
use bosch_mems_android_hal.Core.DirectChannel.{DirectChannel, write_event}
use bosch_mems_android_hal.Aidl.Types.{Interface, Event, Payload, vec3, uncal}
use bosch_mems_android_hal.Aidl.Placement.{◌>>=◌}

-- The union of sensors_event_t, as far as it is written.
pub data EventData (F : Type 0) : Type 0 where
  acceleration : F → F → F → EventData F  -- with status ACCURACY_HIGH
  uncalibrated_gyro : F → F → F → EventData F  -- with zero biases

-- sensors_event_t without reserved0, which the ring sets.
pub record SensorsEvent (F : Type 0) : Type 0 where
  pub sensor : ℕ
  pub sensor_type : ℕ
  pub timestamp : ℕ
  pub event_data : EventData F

module _ {F : Type 0} where
  as_vec3 : Payload F → Option (EventData F)
  as_vec3 (vec3 x y z) = some (EventData.acceleration x y z)
  as_vec3 _ = none

  as_uncal : Payload F → Option (EventData F)
  as_uncal (uncal x y z) = some (EventData.uncalibrated_gyro x y z)
  as_uncal _ = none

module _ {F : Type 0} (api : Interface) where
  unfoldable pub to_sensors_event : Event F → Option (SensorsEvent F)
  unfolding as_vec3 as_uncal
  to_sensors_event e = do
    d ←
        (if e.sensor_type == api.type_gyroscope_uncalibrated
            || e.sensor_type == api.type_accelerometer_uncalibrated
          then as_uncal e.payload
          else as_vec3 e.payload)
    some (record {
      sensor = e.sensor_handle;
      sensor_type = e.sensor_type;
      timestamp = e.timestamp;
      event_data = d;
    })

  -- The body of the inner loop, on one channel. `[]` on a map makes the missing entry.
  unfoldable pub deliver :
      ℕ → Event F → DirectChannel (SensorsEvent F) → Option (DirectChannel (SensorsEvent F))
  deliver period e c =
      let h = e.sensor_handle in
      let rate = lookup_or 0 h c.rate_ns in
      let n = lookup_or 0 h c.sample_count + 1 in
      let c1 = record c { rate_ns = insert h rate c.rate_ns } in
      let c2 = record c1 { sample_count = insert h n c.sample_count } in
      if any_of (λ s. s == h) c.sensor_handles
      then if rate == 0
        then some c1
        else if leb (2 ^ 31) n || leb (2 ^ 63) (period * n)
        then none
        else if ltb (period * n) rate
        then some c2
        else (do
          ev ← to_sensors_event e
          some (record (write_event ev c2) { sample_count = insert h 0 c2.sample_count }))
      else some c

  unfoldable pub deliver_to_each :
      ℕ
      → Event F
      → Map (DirectChannel (SensorsEvent F))
      → Option (Map (DirectChannel (SensorsEvent F)))
  deliver_to_each period e [] = some []
  deliver_to_each period e ((k, c) ∷ m) = do
    c' ← deliver period e c
    m' ← deliver_to_each period e m
    some ((k, c') ∷ m')

  -- `locked` is what try_lock answers.
  unfoldable pub write_to_direct_buffer :
      Bool
      → List (Event F)
      → ℕ
      → Map (DirectChannel (SensorsEvent F))
      → Option (Map (DirectChannel (SensorsEvent F)))
  write_to_direct_buffer false es period m = some m
  write_to_direct_buffer true [] period m = some m
  write_to_direct_buffer true (e ∷ es) period m = do
    m' ← deliver_to_each period e m
    write_to_direct_buffer true es period m'
