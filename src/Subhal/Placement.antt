-- ===== src/Subhal/Placement.antt =====
-- setSensorPlacementData, getLocation, getOrientation, getSensorPlacement and getSensorTemperature of
-- sensors/multihal/common/Sensor.cpp. A frame is its array of floats, u.data_float.
use bosch_mems_android_hal.Common.{
  ℕ, ◌+◌, ℤ, pos, negsuc, List, [], ◌∷◌, ◌++◌, Option, none, some, set, length, replicate, ltb,
  if◌then◌else◌, FloatOps,
}
use bosch_mems_android_hal.Aidl.Types.{
  FrameType, AdditionalInfo, Axis, Orientation, Location, Configuration,
}
use bosch_mems_android_hal.Aidl.Placement.{
  axis_index, ◌>>=◌, one, minus_one, zero_float, location_x_idx, location_y_idx, location_z_idx,
  rotation_x_idx, rotation_y_idx, rotation_z_idx,
}
use bosch_mems_android_hal.Multihal.Types.{Result, ok, bad_value}

module _ {F : Type 0} where
  -- `none` is BAD_VALUE, for an index out of range.
  unfoldable pub set_sensor_placement_data : List F → ℤ → F → Option (List F)
  set_sensor_placement_data frame (negsuc m) v = none
  set_sensor_placement_data frame (pos i) v =
      if ltb i (length frame) then some (set frame i v) else none

  unfoldable pub get_orientation : Option (List (Configuration F)) → Option (List Orientation)
  get_orientation none = none
  get_orientation (some []) = none
  get_orientation (some (c ∷ cs)) = some c.orientation

  unfoldable pub get_location : Option (List (Configuration F)) → Option (List (Location F))
  get_location none = none
  get_location (some []) = none
  get_location (some (c ∷ cs)) = some c.location

-- The first of a list that is there and not empty; the others are BAD_VALUE.
unfoldable pub first_of : {A : Type 0} → Option (List A) → Option A
first_of none = none
first_of (some []) = none
first_of (some (a ∷ as')) = some a

module _ {F : Type 0} (ops : FloatOps F) where
  unfoldable pub set_axis : ℕ → Axis → List F → Option (List F)
  unfolding set_sensor_placement_data
  set_axis idx a frame =
      set_sensor_placement_data frame (axis_index idx a.map_to)
        (if a.negate then minus_one ops else one ops)

  unfoldable pub set_orientation : Orientation → List F → Option (List F)
  unfolding set_axis
  set_orientation o frame =
      if o.rotate
      then (do
        v ← set_sensor_placement_data frame (pos rotation_x_idx) (one ops)
        w ← set_sensor_placement_data v (pos (rotation_y_idx + 4)) (one ops)
        set_sensor_placement_data w (pos (rotation_z_idx + 8)) (one ops))
      else (do
        v ← set_axis rotation_x_idx o.x frame
        w ← set_axis rotation_y_idx o.y v
        set_axis rotation_z_idx o.z w)

  unfoldable pub frame_of : ℕ → Location F → Orientation → Option (List F)
  unfolding set_orientation
  frame_of frame_size l o = do
    a ← set_sensor_placement_data (replicate frame_size (zero_float ops)) (pos location_x_idx) l.x
    b ← set_sensor_placement_data a (pos location_y_idx) l.y
    c ← set_sensor_placement_data b (pos location_z_idx) l.z
    set_orientation o c

  -- The frame, `none` for any BAD_VALUE.
  unfoldable pub placement_frame : ℕ → Option (List (Configuration F)) → Option (List F)
  unfolding frame_of get_location get_orientation first_of
  placement_frame frame_size config = do
    l ← first_of (get_location config)
    o ← first_of (get_orientation config)
    frame_of frame_size l o

  added : FrameType → Option (List F) → List (AdditionalInfo F) → Result × List (AdditionalInfo F)
  added t none frames = (bad_value, frames)
  added t (some f) frames =
      (ok, frames ++ record { frame_type = t; serial = 0; data_float = f } ∷ [])

  unfoldable pub get_sensor_placement :
      ℕ
      → Option (List (Configuration F))
      → List (AdditionalInfo F)
      → Result × List (AdditionalInfo F)
  unfolding added placement_frame
  get_sensor_placement frame_size config =
      added FrameType.sensor_placement (placement_frame frame_size config)

  temperature_frame : ℕ → Option F → Option (List F)
  temperature_frame frame_size none = none
  temperature_frame frame_size (some t) = some (set (replicate frame_size (zero_float ops)) 0 t)

  -- The temperature is what readSensorTemperature gives, `none` for false.
  unfoldable pub get_sensor_temperature :
      ℕ → Option F → List (AdditionalInfo F) → Result × List (AdditionalInfo F)
  unfolding added temperature_frame
  get_sensor_temperature frame_size temperature =
      added FrameType.internal_temperature (temperature_frame frame_size temperature)
