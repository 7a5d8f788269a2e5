-- ===== src/Tests/Placement.antt =====
-- The theorems on the frame of the sensor placement (sensors/aidl/Sensor.cpp) at concrete values.
use bosch_mems_android_hal.Common.{ℕ, ◌<◌, ◌≡◌, refl, List, some, get_elem?, length, arith}
use bosch_mems_android_hal.Aidl.Placement.{placement_values}
use bosch_mems_android_hal.Aidl.Matrix.{matrix_entry}
use bosch_mems_android_hal.Aidl.Rotation.{placement_values-matrix}
use bosch_mems_android_hal.Tests.Values.{ops, orientation, location}

placement_values-matrix_example :
    (v : List ℕ) × (placement_values ops 14 location orientation ≡ some v)
    × (length v ≡ 14)
    × ((j : ℕ) → j < 14 → get_elem? v j ≡ some (matrix_entry ops 1 0 2 orientation location j))
placement_values-matrix_example =
    placement_values-matrix ops 14 1 0 2 orientation location (omega arith) refl (refl, omega arith)
      (refl, omega arith) (refl, omega arith)
