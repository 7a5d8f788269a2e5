-- ===== src/Subhal/SameMaps.antt =====
-- The sensors of the sub-HAL (sensors/multihal/common/SensorsSubHal.cpp) and those of the AIDL service
-- (sensors/aidl/SensorsHalAidl.cpp): the requests to the sensors in a map.
use bosch_mems_android_hal.Common.{
  ℕ, ◌≡◌, refl, ap, inl, inr, List, [], ◌∷◌, ◌++◌, Option, none, some, Map, lookup, insert, ltb,
  ◌==◌, Bool-cases, Option-cases,
}
use bosch_mems_android_hal.Core.DirectChannel.{DirectChannel}
use bosch_mems_android_hal.Aidl.Sensor as AidlSensor
use bosch_mems_android_hal.Aidl.Service as AidlService
use bosch_mems_android_hal.Aidl.ServiceChannels as AidlChannels
use bosch_mems_android_hal.Aidl.DirectBuffer.{SensorsEvent}
use bosch_mems_android_hal.Subhal.Sensor as SubhalSensor
use bosch_mems_android_hal.Subhal.Service.{Output, to_hal}
use bosch_mems_android_hal.Subhal.Channels.{
  tagged, at_sensor, remove_each, stop_each, stopped_rate, remove_all,
}
use bosch_mems_android_hal.Subhal.Same.{forget, forget_in, stop-same, remove-same}

module _ {F : Type 0} where
  abbrev pub forget_map : Map (AidlSensor.Sensor F) → Map (SubhalSensor.Sensor F)
  forget_map [] = []
  forget_map ((h, t) ∷ m) = (h, forget t) ∷ forget_map m

  abbrev pub forget_option : Option (AidlSensor.Sensor F) → Option (SubhalSensor.Sensor F)
  forget_option none = none
  forget_option (some t) = some (forget t)

  -- The calls of the sensors' ISensorHal.
  abbrev pub hal_calls : List (AidlService.Output F) → List (Output F)
  hal_calls [] = []
  hal_calls (AidlService.to_hal h e ∷ out) = to_hal h e ∷ hal_calls out
  hal_calls (AidlService.to_event_queue events ∷ out) = hal_calls out

  pub hal_calls-append :
      (xs ys : List (AidlService.Output F)) → hal_calls (xs ++ ys) ≡ hal_calls xs ++ hal_calls ys
  hal_calls-append [] ys = refl
  hal_calls-append (AidlService.to_hal h e ∷ xs) ys =
      ap (λ l. to_hal h e ∷ l) (hal_calls-append xs ys)
  hal_calls-append (AidlService.to_event_queue events ∷ xs) ys = hal_calls-append xs ys

  pub lookup-forget_map :
      (h : ℕ) (m : Map (AidlSensor.Sensor F)) → lookup h (forget_map m) ≡ forget_option (lookup h m)
  lookup-forget_map h [] = refl
  lookup-forget_map h ((k, t) ∷ m) = elim (Bool-cases (k == h)) [
    | inl e ↦ rw e refl
    | inr e ↦ rw e (lookup-forget_map h m)
  ]

  pub insert-forget_map :
      (h : ℕ) (t : AidlSensor.Sensor F) (m : Map (AidlSensor.Sensor F))
      → insert h (forget t) (forget_map m) ≡ forget_map (insert h t m)
  insert-forget_map h t [] = refl
  insert-forget_map h t ((k, u) ∷ m) = elim (Bool-cases (ltb h k)) [
    | inl e ↦ rw e refl
    | inr e ↦ rw e (elim (Bool-cases (k == h)) [
      | inl s ↦ rw s refl
      | inr s ↦ rw s (ap (λ l. (k, forget u) ∷ l) (insert-forget_map h t m))
    ])
  ]

  tagged-same :
      (h : ℕ) (es : List (AidlSensor.Effect F)) → tagged h es ≡ hal_calls (AidlService.tag h es)
  unfolding tagged AidlService.tag
  tagged-same h [] = refl
  tagged-same h (e ∷ es) = ap (λ l. to_hal h e ∷ l) (tagged-same h es)

  abbrev pub forget_all :
      Map (AidlSensor.Sensor F) × List (AidlService.Output F)
      → Map (SubhalSensor.Sensor F) × List (Output F)
  forget_all (m, out) = (forget_map m, hal_calls out)

  pub at_sensor-same :
      (h : ℕ) (f : AidlSensor.Sensor F → AidlSensor.Sensor F × List (AidlSensor.Effect F))
      (g : SubhalSensor.Sensor F → SubhalSensor.Sensor F × List (AidlSensor.Effect F))
      (m : Map (AidlSensor.Sensor F))
      → ((t : AidlSensor.Sensor F) → g (forget t) ≡ forget_in (f t))
      → at_sensor h g (forget_map m) ≡ forget_all (AidlChannels.at_sensor h f m)
  unfolding at_sensor AidlChannels.at_sensor
  at_sensor-same h f g m same = elim (Option-cases (lookup h m)) [
    | inl e ↦ rw (at_sensor, lookup-forget_map h m, AidlChannels.at_sensor, e) refl
    | inr (t, e) ↦
        rw
          (
            at_sensor,
            lookup-forget_map h m,
            AidlChannels.at_sensor,
            e,
            same t,
            insert-forget_map h (f t).0 m,
            tagged-same h (f t).1,
          )
          refl
  ]

  pub remove_each-same :
      (ch : ℕ) (hs : List ℕ) (m : Map (AidlSensor.Sensor F))
      → remove_each ch hs (forget_map m) ≡ forget_all (AidlChannels.remove_each ch hs m)
  unfolding remove_each AidlChannels.remove_each
  remove_each-same ch [] m = refl
  remove_each-same ch (h ∷ hs) m =
      let (m1, out) = AidlChannels.at_sensor h (AidlSensor.remove_direct_channel ch) m in
      rw
        (
          at_sensor-same h (AidlSensor.remove_direct_channel ch)
              (SubhalSensor.remove_direct_channel ch) m (remove-same ch),
          remove_each-same ch hs m1,
          hal_calls-append out (AidlChannels.remove_each ch hs m1).1,
        )
        refl

  pub remove_all-same :
      (cs : Map (DirectChannel (SensorsEvent F))) (m : Map (AidlSensor.Sensor F))
      → remove_all cs (forget_map m) ≡ forget_all (AidlChannels.remove_all cs m)
  unfolding remove_all AidlChannels.remove_all
  remove_all-same [] m = refl
  remove_all-same ((ch, c) ∷ cs) m =
      let (m1, out) = AidlChannels.remove_each ch c.sensor_handles m in
      rw
        (
          remove_each-same ch c.sensor_handles m,
          remove_all-same cs m1,
          hal_calls-append out (AidlChannels.remove_all cs m1).1,
        )
        refl

  rate-same :
      (o : Option (AidlSensor.Sensor F)) (h : ℕ) (rates : Map ℕ)
      → stopped_rate (forget_option o) h rates ≡ AidlChannels.rates_after o h rates
  unfolding stopped_rate AidlChannels.rates_after
  rate-same none h rates = refl
  rate-same (some t) h rates = refl

  pub stop_each-same :
      (ch : ℕ) (hs : List ℕ) (rates : Map ℕ) (m : Map (AidlSensor.Sensor F))
      → let (rates', m', out) = AidlChannels.stop_each ch hs rates m in
        stop_each ch hs rates (forget_map m) ≡ (rates', forget_map m', hal_calls out)
  unfolding stop_each AidlChannels.stop_each
  stop_each-same ch [] rates m = refl
  stop_each-same ch (h ∷ hs) rates m =
      let (m1, out) = AidlChannels.at_sensor h (AidlSensor.stop_direct_channel ch) m in
      let rates1 = AidlChannels.rates_after (lookup h m) h rates in
      rw
        (
          at_sensor-same h (AidlSensor.stop_direct_channel ch) (SubhalSensor.stop_direct_channel ch)
              m (stop-same ch),
          lookup-forget_map h m,
          rate-same (lookup h m) h rates,
          stop_each-same ch hs rates1 m1,
          hal_calls-append out (AidlChannels.stop_each ch hs rates1 m1).2,
        )
        refl
