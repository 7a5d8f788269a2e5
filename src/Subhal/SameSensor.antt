-- ===== src/Subhal/SameSensor.antt =====
-- The Sensor of the sub-HAL (sensors/multihal/common/Sensor.cpp) does what the Sensor of the AIDL service
-- (sensors/aidl/Sensor.cpp) does.
use bosch_mems_android_hal.Common.{
  ℕ, ℤ, ◌≤◌, ◌≡◌, refl, sym, ap, ◌∙◌, inl, inr, Bool, List, [], ◌∷◌, ◌++◌, Option, none, some,
  FloatOps, Option-cases, Bool-cases, bool_ne, ◌==◌, ◌*◌,
}
use bosch_mems_android_hal.Aidl.Types.{Interface, Event}
use bosch_mems_android_hal.Aidl.Placement.{◌>>=◌}
use bosch_mems_android_hal.Aidl.Sensor as AidlSensor
use bosch_mems_android_hal.Aidl.Reports as AidlReports
use bosch_mems_android_hal.Aidl.SensorRun as AidlRun
use bosch_mems_android_hal.Subhal.Sensor as SubhalSensor
use bosch_mems_android_hal.Subhal.Reports as SubhalReports
use bosch_mems_android_hal.Subhal.Run as SubhalRun
use bosch_mems_android_hal.Subhal.Same.{
  forget, forget_in, batch-same, stop-same, add-same, remove-same,
}
use bosch_mems_android_hal.Subhal.SameRun.{activate-same, flush-same, run_round-same}

-- What can happen to a sensor.
pub data Request (F : Type 0) : Type 0 where
  batches : ℤ → ℤ → Request F
  activates : AidlReports.Answers F → Bool → Request F
  flushes : AidlReports.Answers F → Request F
  adds : ℕ → ℕ → Request F
  stops : ℕ → Request F
  removes : ℕ → Request F
  rounds : Bool → ℕ → ℕ → List (Event F) → Request F

module _ {F : Type 0} (ops : FloatOps F) (api : Interface) where
  -- A request to the AIDL sensor; `none` is what is undefined.
  unfoldable pub aidl_request :
      Request F → AidlSensor.Sensor F → Option (AidlSensor.Sensor F × List (AidlSensor.Effect F))
  aidl_request (batches period latency) t = some (AidlSensor.batch period latency t)
  aidl_request (activates ans enable) t = AidlReports.activate ops api ans enable t
  aidl_request (flushes ans) t = do
    (status, t', effects) ← AidlReports.flush ops api ans t
    some (t', effects)
  aidl_request (adds h period) t = some (AidlSensor.add_direct_channel h period t)
  aidl_request (stops h) t = some (AidlSensor.stop_direct_channel h t)
  aidl_request (removes h) t = some (AidlSensor.remove_direct_channel h t)
  aidl_request (rounds wake_up now later events) t =
      let (t', effects, wait) = AidlRun.run_round wake_up now later events t in some (t', effects)

  -- A request to the sub-HAL's sensor. The time of a flush event is 0.
  pub subhal_request :
      Request F
      → SubhalSensor.Sensor F
      → Option (SubhalSensor.Sensor F × List (AidlSensor.Effect F))
  subhal_request (batches period latency) s = SubhalSensor.batch period latency s
  subhal_request (activates ans enable) s = some (SubhalReports.activate ops api ans enable s)
  subhal_request (flushes ans) s = some (s, (SubhalReports.flush ops api 0 ans s).1)
  subhal_request (adds h period) s = some (SubhalSensor.add_direct_channel h period s)
  subhal_request (stops h) s = some (SubhalSensor.stop_direct_channel h s)
  subhal_request (removes h) s = some (SubhalSensor.remove_direct_channel h s)
  subhal_request (rounds wake_up now later events) s =
      let (s', effects, wait) = SubhalRun.run_round wake_up now later events s in some (s', effects)

  unfoldable pub aidl_requests :
      List (Request F)
      → AidlSensor.Sensor F
      → Option (AidlSensor.Sensor F × List (AidlSensor.Effect F))
  unfolding aidl_request
  aidl_requests [] t = some (t, [])
  aidl_requests (r ∷ rs) t = do
    (t1, effects) ← aidl_request r t
    (t2, more) ← aidl_requests rs t1
    some (t2, effects ++ more)

  pub subhal_requests :
      List (Request F)
      → SubhalSensor.Sensor F
      → Option (SubhalSensor.Sensor F × List (AidlSensor.Effect F))
  unfolding subhal_request
  subhal_requests [] s = some (s, [])
  subhal_requests (r ∷ rs) s = do
    (s1, effects) ← subhal_request r s
    (s2, more) ← subhal_requests rs s1
    some (s2, effects ++ more)

  abbrev Delays : AidlSensor.Sensor F → Type 0
  Delays t = t.sensor_info.min_delay_us ≤ t.sensor_info.max_delay_us

  abbrev Matches : Request F → AidlSensor.Sensor F → Type 0
  Matches r t =
      (t' : AidlSensor.Sensor F) (effects : List (AidlSensor.Effect F))
      → aidl_request r t ≡ some (t', effects)
      → subhal_request r (forget t) ≡ some (forget t', effects)

  abbrev forget_some :
      Option (AidlSensor.Sensor F × List (AidlSensor.Effect F))
      → Option (SubhalSensor.Sensor F × List (AidlSensor.Effect F))
  forget_some none = none
  forget_some (some r) = some (forget_in r)

  request-Matches : (r : Request F) (t : AidlSensor.Sensor F) → Delays t → Matches r t
  unfolding aidl_request subhal_request
  request-Matches (batches period latency) t d t' effects e =
      batch-same period latency t d ∙ ap forget_some e
  request-Matches (activates ans enable) t d t' effects e =
      ap some (activate-same ops api ans enable t t' effects e)
  request-Matches (flushes ans) t d t' effects e =
      elim (Option-cases (AidlReports.flush ops api ans t)) [
        | inl undefined ↦ let e' = rw undefined at e in cc
        | inr ((status, s', done), flushed) ↦
            let (kept, same, fine) = flush-same ops api ans t s' status done flushed in
            ap some (λ i. (sym kept i, same i)) ∙ ap forget_some (rw flushed at e)
      ]
  request-Matches (adds h period) t d t' effects e =
      ap some (add-same h period t) ∙ ap forget_some e
  request-Matches (stops h) t d t' effects e = ap some (stop-same h t) ∙ ap forget_some e
  request-Matches (removes h) t d t' effects e = ap some (remove-same h t) ∙ ap forget_some e
  request-Matches (rounds wake_up now later events) t d t' effects e =
      ap (λ r. some (r.0, r.1)) (run_round-same wake_up now later events t) ∙ ap forget_some e

  some_first :
      {A B : Type 0} (a c : A) (b d : B)
      → ◌≡◌ {A = Option (A × B)} (some (a, b)) (some (c, d))
      → a ≡ c
  some_first a c b d e = cc

  stop-info :
      (h : ℕ) (s : SubhalSensor.Sensor F)
      → (SubhalSensor.stop_direct_channel h s).0.sensor_info ≡ s.sensor_info
  unfolding SubhalSensor.stop_direct_channel SubhalSensor.update_direct_channel
  stop-info h s = refl

  request-info :
      (r : Request F) (s s' : SubhalSensor.Sensor F) (effects : List (AidlSensor.Effect F))
      → subhal_request r s ≡ some (s', effects)
      → s'.sensor_info ≡ s.sensor_info
  unfolding subhal_request SubhalSensor.batch SubhalReports.activate SubhalReports.switch
      SubhalSensor.add_direct_channel SubhalSensor.remove_direct_channel
      SubhalSensor.update_direct_channel SubhalRun.run_round
  request-info (batches period latency) s s' effects e =
      elim (Option-cases (
        SubhalSensor.clamp (s.sensor_info.min_delay_us * 1000) (s.sensor_info.max_delay_us * 1000)
          period)) [
            | inl bad ↦ let e' = rw bad at e in cc
            | inr (p, good) ↦ ap (λ x. x.sensor_info) (sym (some_first _ _ _ _ (rw good at e)))
          ]
  request-info (activates ans enable) s s' effects e =
      ap (λ x. x.sensor_info) (sym (some_first _ _ _ _ e))
      ∙ elim (Bool-cases (bool_ne s.is_enabled enable)) [ inl b ↦ rw b refl | inr b ↦ rw b refl ]
  request-info (flushes ans) s s' effects e = ap (λ x. x.sensor_info) (sym (some_first _ _ _ _ e))
  request-info (adds h period) s s' effects e =
      ap (λ x. x.sensor_info) (sym (some_first _ _ _ _ e))
      ∙ elim (Bool-cases (period == 0)) [ inl b ↦ rw b (stop-info h _) | inr b ↦ rw b refl ]
  request-info (stops h) s s' effects e =
      ap (λ x. x.sensor_info) (sym (some_first _ _ _ _ e)) ∙ stop-info h s
  request-info (removes h) s s' effects e = ap (λ x. x.sensor_info) (sym (some_first _ _ _ _ e))
  request-info (rounds wake_up now later events) s s' effects e =
      ap (λ x. x.sensor_info) (sym (some_first _ _ _ _ e))

  -- Under any batches, activations, flushes, requests of direct channels and rounds of the run loop, where
  -- the AIDL sensor does nothing undefined and its delays are in order, the sub-HAL's sensor makes the same
  -- calls of its ISensorHal and of the callback, in the same order, and ends in the same state; the time of a flush event
  -- is taken to be 0, which the sub-HAL's code does not set.
  pub requests-match :
      (rs : List (Request F)) (t t' : AidlSensor.Sensor F) (effects : List (AidlSensor.Effect F))
      → t.sensor_info.min_delay_us ≤ t.sensor_info.max_delay_us
      → aidl_requests rs t ≡ some (t', effects)
      → subhal_requests rs (forget t) ≡ some (forget t', effects)
  unfolding aidl_requests subhal_requests
  requests-match [] t t' effects d e = ap forget_some e
  requests-match (r ∷ rs) t t' effects d e = elim (Option-cases (aidl_request r t)) [
    | inl undefined ↦ let e' = rw undefined at e in cc
    | inr ((t1, first), done) ↦ elim (Option-cases (aidl_requests rs t1)) [
      | inl undefined ↦ let e' = rw (done, undefined) at e in cc
      | inr ((t2, more), rest) ↦
          let matched = request-Matches r t d t1 first done in
          let info = request-info r (forget t) (forget t1) first matched in
          rw (matched, requests-match rs t1 t2 more (rw info d) rest)
            (ap forget_some (rw (done, rest) at e))
    ]
  ]
