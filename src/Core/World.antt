-- ===== src/Core/World.antt =====
-- The requests of the HAL to sensors and composite sensors (Core.Composite), against what one core is to do.
use bosch_mems_android_hal.Common.{
  ℕ, ◌≡◌, refl, sym, ap, ◌∙◌, false, List, [], ◌∷◌, ◌++◌, Bool-cases, inl, inr, ◌==◌, ==_iff,
  if◌then◌else◌, lookup_or, bool_ne, insert,
}
use bosch_mems_android_hal.Core.Types.{BoschSensorType, type_code, SensorData}
use bosch_mems_android_hal.Core.SensorCore
use bosch_mems_android_hal.Core.SensorCore.{
  Call, make_sensor_core, activate_by_type, batch_by_type, any_enabled,
}
use bosch_mems_android_hal.Core.Power.{
  Request, activates, batches, request, requests, power_after, latest, requests-power,
}
use bosch_mems_android_hal.Core.Composite.{
  put, World, Ask, HalRequest, of_sensor, of_composite, at_core, composite_activate,
  composite_batch, step, run,
}
use bosch_mems_android_hal.Core.Shared.{
  IsAfter, IsAfter-compose, at_core-IsAfter, at_each-IsAfter, calls_of, for_each_place,
}

-- What never changes: the types of the sensors and of the composite sensors, and the dependencies.
pub record Layout : Type 0 where
  pub sensor_type : ℕ → BoschSensorType
  pub composite_type : ℕ → BoschSensorType
  pub dependency_list : ℕ → List ℕ

-- A request as one for a type.
abbrev pub for_type : BoschSensorType → Ask → Request
for_type t (Ask.activate enable) = activates t enable
for_type t (Ask.batch period) = batches t period

-- What a request of the HAL asks of core d: the sensor's own for its own type, and that of a composite
-- sensor, for the type of the composite sensor, once for each place at which it depends on the core.
abbrev pub asked : Layout → ℕ → HalRequest → List Request
asked l d (of_sensor i a) = if i == d then for_type (l.sensor_type i) a ∷ [] else []
asked l d (of_composite j a) =
    for_each_place d (for_type (l.composite_type j) a) (l.dependency_list j)

abbrev pub all_asked : Layout → ℕ → List HalRequest → List Request
all_asked l d [] = []
all_asked l d (r ∷ rs) = asked l d r ++ all_asked l d rs

put-keeps {ℓ} :
    {A : Type ℓ} {B : Type 0} (f : A → B) (j : ℕ) (a : A) (store : ℕ → A) (k : ℕ)
    → f a ≡ f (store j)
    → f (put j a store k) ≡ f (store k)
put-keeps f j a store k h = elim (Bool-cases (j == k)) [
  | inl e ↦ rw e (h ∙ ap (λ i. f (store i)) ((==_iff j k).0 e))
  | inr e ↦ rw e refl
]

module _ {F : Type 0} where
  pub record IsLaidOut (l : Layout) (w : World F) : Type 0 where
    pub sensor_type : (i : ℕ) → (w.cores i).sensor_data.sensor_type ≡ l.sensor_type i
    pub composite_type : (j : ℕ) → (w.composites j).sensor_data.sensor_type ≡ l.composite_type j
    pub dependency_list : (j : ℕ) → (w.composites j).dependency_list ≡ l.dependency_list j

  request-sensor_data :
      (r : Request) (s : SensorCore.SensorCore F) → (request r s).0.sensor_data ≡ s.sensor_data
  unfolding request activate_by_type batch_by_type
  request-sensor_data (activates t b) s =
      elim (Bool-cases
        (bool_ne (any_enabled (insert (type_code t) b s.enable_state)) s.is_enabled)) [
          | inl e ↦ rw e refl
          | inr e ↦ rw e refl
        ]
  request-sensor_data (batches t p) s = refl

  requests-sensor_data :
      (rs : List Request) (s : SensorCore.SensorCore F)
      → (requests rs s).0.sensor_data ≡ s.sensor_data
  unfolding requests
  requests-sensor_data [] s = refl
  requests-sensor_data (r ∷ rs) s =
      requests-sensor_data rs (request r s).0 ∙ request-sensor_data r s

  step-IsAfter :
      (l : Layout) (d : ℕ) (r : HalRequest) (w : World F)
      → IsLaidOut l w
      → IsAfter d (asked l d r) w.cores ((step r w).0.cores, (step r w).1)
  unfolding step request composite_activate composite_batch SensorCore.activate SensorCore.batch
      at_core
  step-IsAfter l d (of_sensor i (Ask.activate b)) w ok =
      rw (sym (ok.sensor_type i)) (at_core-IsAfter d i (activates _ b) w.cores)
  step-IsAfter l d (of_sensor i (Ask.batch p)) w ok =
      rw (sym (ok.sensor_type i)) (at_core-IsAfter d i (batches _ p) w.cores)
  step-IsAfter l d (of_composite j (Ask.activate b)) w ok =
      rw (sym (ok.composite_type j), sym (ok.dependency_list j))
        (at_each-IsAfter d (activates _ b) _ w.cores)
  step-IsAfter l d (of_composite j (Ask.batch p)) w ok =
      rw (sym (ok.composite_type j), sym (ok.dependency_list j))
        (at_each-IsAfter d (batches _ p) _ w.cores)

  composite-keeps :
      (r : HalRequest) (w : World F) (j : ℕ)
      → (((step r w).0.composites j).sensor_data.sensor_type
          ≡ (w.composites j).sensor_data.sensor_type)
        × (((step r w).0.composites j).dependency_list ≡ (w.composites j).dependency_list)
  unfolding step composite_activate composite_batch
  composite-keeps (of_sensor i (Ask.activate b)) w j = (refl, refl)
  composite-keeps (of_sensor i (Ask.batch p)) w j = (refl, refl)
  composite-keeps (of_composite k (Ask.activate b)) w j = (
    put-keeps (λ c. c.sensor_data.sensor_type) k _ w.composites j refl,
    put-keeps (λ c. c.dependency_list) k _ w.composites j refl,
  )
  composite-keeps (of_composite k (Ask.batch p)) w j = (
    put-keeps (λ c. c.sensor_data.sensor_type) k _ w.composites j refl,
    put-keeps (λ c. c.dependency_list) k _ w.composites j refl,
  )

  step-IsLaidOut :
      (l : Layout) (r : HalRequest) (w : World F) → IsLaidOut l w → IsLaidOut l (step r w).0
  step-IsLaidOut l r w ok = record {
    sensor_type = λ i.
        ap (λ (s : SensorCore.SensorCore F). s.sensor_data.sensor_type) (step-IsAfter l i r w ok).0
        ∙ ap (λ (d : SensorData F). d.sensor_type) (requests-sensor_data (asked l i r) (w.cores i))
        ∙ ok.sensor_type i;
    composite_type = λ j. (composite-keeps r w j).0 ∙ ok.composite_type j;
    dependency_list = λ j. (composite-keeps r w j).1 ∙ ok.dependency_list j;
  }

  -- A core that the sensors share is in the state, and its driver was told the calls in the order, that the
  -- requests for this core alone would give, whatever the HAL asks of the other sensors between them.
  pub run-IsAfter :
      (l : Layout) (d : ℕ) (rs : List HalRequest) (w : World F)
      → IsLaidOut l w
      → IsAfter d (all_asked l d rs) w.cores ((run rs w).0.cores, (run rs w).1)
  unfolding run requests
  run-IsAfter l d [] w ok = (refl, refl)
  run-IsAfter l d (r ∷ rs) w ok =
      IsAfter-compose d (asked l d r) (all_asked l d rs) w.cores ((step r w).0.cores, (step r w).1)
        ((run rs (step r w).0).0.cores, (run rs (step r w).0).1) (step-IsAfter l d r w ok)
        (run-IsAfter l d rs (step r w).0 (step-IsLaidOut l r w ok))

  -- After any requests of the HAL, the driver of a core that was new was last told to be on exactly if some
  -- type is enabled at the core, and a type is enabled there exactly if the latest activate request
  -- was for on, among those to the sensor itself and to the composite sensors that depend on it.
  pub run-power :
      (l : Layout) (d : ℕ) (data_of : SensorData F) (rs : List HalRequest) (w : World F)
      → IsLaidOut l w
      → w.cores d ≡ make_sensor_core data_of
      → (power_after false (calls_of d (run rs w).1)
          ≡ any_enabled ((run rs w).0.cores d).enable_state)
        × ((t : BoschSensorType)
            → lookup_or false (type_code t) ((run rs w).0.cores d).enable_state
              ≡ latest t false (all_asked l d rs))
  run-power l d data_of rs w ok new =
      let (s, calls) = run-IsAfter l d rs w ok in
      let (power, _, types) = requests-power (all_asked l d rs) data_of in
      rw (calls, s, new) (power, types)
