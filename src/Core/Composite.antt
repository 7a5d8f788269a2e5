-- ===== src/Core/Composite.antt =====
-- CompositeSensorCore of sensors/core/CompositeSensors.{h,cpp}, and the requests that the HAL makes of the
-- sensors and the composite sensors. The cores are shared by pointer: a store holds them, and a composite
-- sensor names its dependencies by their places in it. The fusion is not part of this file.
use bosch_mems_android_hal.Common.{
  ℕ, Bool, true, List, [], ◌∷◌, ◌++◌, Option, none, some, map, ◌==◌, if◌then◌else◌, FloatOps,
}
use bosch_mems_android_hal.Hwctl.Stream.{Sysfs}
use bosch_mems_android_hal.Core.Types.{SensorData}
use bosch_mems_android_hal.Core.SensorCore
use bosch_mems_android_hal.Core.SensorCore.{Call, activate_by_type, batch_by_type}

-- The constructor gives just_started and sampling_period_ns no value: they may be any.
pub record CompositeSensorCore (F : Type 0) : Type 0 where
  pub sensor_data : SensorData F
  pub dependency_list : List ℕ
  pub just_started : Bool
  pub sampling_period_ns : ℕ

-- Activate and batch of ISensorHal.
pub data Ask : Type 0 where
  activate : Bool → Ask
  batch : ℕ → Ask

-- A sensor or a composite sensor, by its place, and what it is asked.
pub data HalRequest : Type 0 where
  of_sensor of_composite : ℕ → Ask → HalRequest

abbrev pub put {ℓ} : {A : Type ℓ} → ℕ → A → (ℕ → A) → ℕ → A
put i a store j = if i == j then a else store j

abbrev pub Store : Type 0 → Type 0
Store F = ℕ → SensorCore.SensorCore F

module _ {F : Type 0} where
  -- A method called on the core at a place, and the calls of the driver that it makes there.
  unfoldable pub at_core :
      (SensorCore.SensorCore F → SensorCore.SensorCore F × List Call)
      → ℕ
      → Store F
      → Store F × List (ℕ × Call)
  at_core f d store = let (s, calls) = f (store d) in (put d s store, map (λ c. (d, c)) calls)

  -- The loops over mDependencyList.
  unfoldable pub at_each :
      (SensorCore.SensorCore F → SensorCore.SensorCore F × List Call)
      → List ℕ
      → Store F
      → Store F × List (ℕ × Call)
  unfolding at_core
  at_each f [] store = (store, [])
  at_each f (d ∷ ds) store =
      let (store1, calls) = at_core f d store in
      let (store2, more) = at_each f ds store1 in (store2, calls ++ more)

  unfoldable pub composite_activate :
      Bool → CompositeSensorCore F → Store F → CompositeSensorCore F × Store F × List (ℕ × Call)
  unfolding at_each
  composite_activate enable c store =
      let (store', calls) =
        at_each (activate_by_type c.sensor_data.sensor_type enable) c.dependency_list store in
      (record c { just_started = true }, store', calls)

  unfoldable pub composite_batch :
      ℕ → CompositeSensorCore F → Store F → CompositeSensorCore F × Store F × List (ℕ × Call)
  unfolding at_each
  composite_batch period c store =
      let (store', calls) =
        at_each (batch_by_type c.sensor_data.sensor_type period) c.dependency_list store in
      (record c { sampling_period_ns = period }, store', calls)

module _ (F : Type 0) where
  -- The sensors and the composite sensors of the process.
  pub record World : Type 0 where
    pub cores : ℕ → SensorCore.SensorCore F
    pub composites : ℕ → CompositeSensorCore F

module _ {F : Type 0} where
  with_composite :
      ℕ → World F → CompositeSensorCore F × Store F × List (ℕ × Call) → World F × List (ℕ × Call)
  with_composite j w (c, store, calls) =
      (record { cores = store; composites = put j c w.composites }, calls)

  with_cores : World F → Store F × List (ℕ × Call) → World F × List (ℕ × Call)
  with_cores w (store, calls) = (record w { cores = store }, calls)

  unfoldable pub step : HalRequest → World F → World F × List (ℕ × Call)
  unfolding at_core composite_activate composite_batch with_composite with_cores
  step (of_sensor i (activate enable)) w =
      with_cores w (at_core (SensorCore.activate enable) i w.cores)
  step (of_sensor i (batch period)) w = with_cores w (at_core (SensorCore.batch period) i w.cores)
  step (of_composite j (activate enable)) w =
      with_composite j w (composite_activate enable (w.composites j) w.cores)
  step (of_composite j (batch period)) w =
      with_composite j w (composite_batch period (w.composites j) w.cores)

  unfoldable pub run : List HalRequest → World F → World F × List (ℕ × Call)
  unfolding step
  run [] w = (w, [])
  run (r ∷ rs) w = let (w1, calls) = step r w in let (w2, more) = run rs w1 in (w2, calls ++ more)

module _ {F : Type 0} (ops : FloatOps F) where
  -- CompositeSensorCore::readSensorTemperature; `none` is `false`.
  unfoldable pub composite_temperature : Sysfs → Store F → List ℕ → Option F
  composite_temperature fs store [] = none
  composite_temperature fs store (d ∷ ds) =
      elim (SensorCore.read_sensor_temperature ops fs (store d)) [
        | none ↦ composite_temperature fs store ds
        | some t ↦ some t
      ]
