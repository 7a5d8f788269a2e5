-- ===== src/Aidl/Latency.antt =====
-- The latency that batch of sensors/aidl/SensorsHalAidl.cpp hands on.
use bosch_mems_android_hal.Common.{
  ℕ, ◌≡◌, refl, ◌∙◌, inl, inr, ℤ, pos, ltb_ℤ, true, false, List, [], ◌∷◌, some, Map, values, lookup,
  insert, lookup-insert, ==_self, Bool-cases, FloatOps, arith,
}
use bosch_mems_android_hal.Aidl.Types.{Interface, ok, illegal_argument}
use bosch_mems_android_hal.Aidl.Sensor
use bosch_mems_android_hal.Aidl.Sensor.{Sensor, Effect}
use bosch_mems_android_hal.Aidl.Service.{
  SensorsHalAidl, ServiceAnswers, on_sensor, used_latency, batch,
}

ltb_ℤ-self : (z : ℤ) → ltb_ℤ z z ≡ false
ltb_ℤ-self z = ground arith

module _ {F : Type 0} where
  used_latency-own :
      (h : ℕ) (latency : ℤ) (m : Map ℤ) (ss : List (Sensor F))
      → lookup h m ≡ some latency
      → used_latency h m ss latency ≡ latency
  unfolding used_latency
  used_latency-own h latency m [] e = refl
  used_latency-own h latency m (s ∷ ss) e = elim (Bool-cases s.is_enabled) [
    | inl on ↦ rw (on, e, ltb_ℤ-self latency) (used_latency-own h latency m ss e)
    | inr off ↦ rw off (used_latency-own h latency m ss e)
  ]

module _ {F : Type 0} (ops : FloatOps F) (api : Interface) where
  -- A positive latency of a request is handed to its sensor as it is, whatever the latencies that other
  -- sensors asked for and whichever sensors are enabled: batch is the sensor's own batch, on a
  -- service that has noted the latency.
  pub batch-latency :
      (ans : ServiceAnswers F) (h : ℕ) (period latency : ℤ) (v : SensorsHalAidl F)
      → ltb_ℤ (pos 0) latency ≡ true
      → batch ops api ans h period latency v
        ≡ on_sensor api ans h illegal_argument
            (λ s. let (s', effects) = Sensor.batch period latency s in some (ok, s', effects))
            (record v { report_latency_ns = insert h latency v.report_latency_ns })
  unfolding batch
  batch-latency ans h period latency v positive =
      let m = insert h latency v.report_latency_ns in
      let noted : lookup h m ≡ some latency =
        lookup-insert h h latency v.report_latency_ns ∙ rw (==_self h) refl in
      rw (positive, used_latency-own h latency m (values v.sensors) noted) refl
