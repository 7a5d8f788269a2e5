-- ===== src/Aidl/Placement.antt =====
-- Sensor::setSensorPlacementData, getLocation, getOrientation and getSensorPlacement of
-- sensors/aidl/Sensor.cpp.
use bosch_mems_android_hal.Common.{
  ℕ, ◌+◌, ◌*◌, ℤ, pos, negsuc, sub_ℕ, List, [], ◌∷◌, ◌++◌, Option, none, some, set, length,
  replicate, ltb, if◌then◌else◌, FloatOps,
}
use bosch_mems_android_hal.Aidl.Types.{
  FrameType, AdditionalInfo, Axis, Orientation, Location, Configuration, AStatus, ok,
  transaction_failed,
}

-- An `int` index into the array of floats.
abbrev pub axis_index : ℕ → ℤ → ℤ
axis_index idx (pos m) = pos (idx + 4 * m)
axis_index idx (negsuc m) = sub_ℕ idx (4 * (m + 1))

infixl 5 ◌>>=◌
abbrev pub ◌>>=◌ {ℓ κ} : {A : Type ℓ} {B : Type κ} → Option A → (A → Option B) → Option B
none >>= f = none
some a >>= f = f a

-- A missing list fails as an empty one does.
abbrev or_empty {ℓ} : {A : Type ℓ} → Option (List A) → List A
or_empty none = []
or_empty (some l) = l

-- LOCATION_X_IDX and so on.
abbrev pub location_x_idx : ℕ
location_x_idx = 3

abbrev pub location_y_idx : ℕ
location_y_idx = 7

abbrev pub location_z_idx : ℕ
location_z_idx = 11

abbrev pub rotation_x_idx : ℕ
rotation_x_idx = 0

abbrev pub rotation_y_idx : ℕ
rotation_y_idx = 1

abbrev pub rotation_z_idx : ℕ
rotation_z_idx = 2

module _ {F : Type 0} where
  -- The index is tested, but the status made for a bad one is dropped and the write is done in any case:
  -- out of range it is undefined, which is `none`.
  unfoldable pub set_sensor_placement_data : List F → ℤ → F → Option (List F)
  set_sensor_placement_data values (negsuc m) v = none
  set_sensor_placement_data values (pos i) v =
      if ltb i (length values) then some (set values i v) else none

  unfoldable pub get_location : Option (List (Configuration F)) → Option (List (Location F))
  get_location none = none
  get_location (some []) = none
  get_location (some (c ∷ cs)) = some c.location

  unfoldable pub get_orientation : Option (List (Configuration F)) → Option (List Orientation)
  get_orientation none = none
  get_orientation (some []) = none
  get_orientation (some (c ∷ cs)) = some c.orientation

module _ {F : Type 0} (ops : FloatOps F) where
  abbrev pub one : F
  one = ops.of_int (pos 1)

  abbrev pub minus_one : F
  minus_one = ops.of_int (negsuc 0)

  abbrev pub zero_float : F
  zero_float = ops.of_int (pos 0)

  -- One axis of the rotation, where the HAL does not rotate by itself.
  unfoldable pub set_axis : ℕ → Axis → List F → Option (List F)
  set_axis idx a values =
      set_sensor_placement_data values (axis_index idx a.map_to)
        (if a.negate then minus_one else one)

  unfoldable pub set_rotation : Orientation → List F → Option (List F)
  unfolding set_axis
  set_rotation o values =
      if o.rotate
      then (do
        v ← set_sensor_placement_data values (pos rotation_x_idx) one
        w ← set_sensor_placement_data v (pos (rotation_y_idx + 4)) one
        set_sensor_placement_data w (pos (rotation_z_idx + 8)) one)
      else (do
        v ← set_axis rotation_x_idx o.x values
        w ← set_axis rotation_y_idx o.y v
        set_axis rotation_z_idx o.z w)

  unfoldable pub placement_values : ℕ → Location F → Orientation → Option (List F)
  unfolding set_rotation
  placement_values frame_size l o = do
    a ← set_sensor_placement_data (replicate frame_size zero_float) (pos location_x_idx) l.x
    b ← set_sensor_placement_data a (pos location_y_idx) l.y
    c ← set_sensor_placement_data b (pos location_z_idx) l.z
    set_rotation o c

  placed :
      ℕ
      → List (Location F)
      → List Orientation
      → List F
      → List (AdditionalInfo F)
      → Option (AStatus × List F × List (AdditionalInfo F))
  placed frame_size [] os values frames = some (transaction_failed, values, frames)
  placed frame_size (l ∷ ls) [] values frames = some (transaction_failed, values, frames)
  placed frame_size (l ∷ ls) (o ∷ os) values frames = do
    v ← placement_values frame_size l o
    some (
      ok,
      v,
      frames ++ record { frame_type = FrameType.sensor_placement; serial = 0; data_float = v } ∷ [],
    )

  -- getSensorPlacement: the status, mAdditionalInfoValues and the frames.
  unfoldable pub get_sensor_placement :
      ℕ
      → Option (List (Configuration F))
      → List F
      → List (AdditionalInfo F)
      → Option (AStatus × List F × List (AdditionalInfo F))
  unfolding placed get_location get_orientation
  get_sensor_placement frame_size config values frames =
      placed frame_size (or_empty (get_location config)) (or_empty (get_orientation config)) values
        frames
