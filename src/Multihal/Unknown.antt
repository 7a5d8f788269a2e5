-- ===== src/Multihal/Unknown.antt =====
-- HalProxyCallbackBase::processEvents (sensors/multihal/2.X/HalProxyCallback.cpp): what a post changes in mSensors.
use bosch_mems_android_hal.Common.{
  ℕ, ◌≡◌, refl, sym, ap, ◌∙◌, inl, inr, Bool, true, false, List, [], ◌∷◌, Option, none, some, Map,
  lookup, lookup-insert, any_of, ==_iff, ◌==◌, ◌||◌, Option-cases, if◌then◌else◌,
}
use bosch_mems_android_hal.Multihal.Types.{SensorInfo, Event, Interface}
use bosch_mems_android_hal.Multihal.Handles.{set_sub_hal_index}
use bosch_mems_android_hal.Multihal.Callback.{default_info, get_sensor_info, process_events}

module _ {R : Type 0} (api : Interface R) where
  -- What is found, or the default entry if the test holds.
  abbrev pub or_default : Bool → Option (SensorInfo R) → Option (SensorInfo R)
  or_default posted (some info) = some info
  or_default true none = some (default_info api)
  or_default false none = none

  or_default-known :
      (b : Bool) (o : Option (SensorInfo R)) (info : SensorInfo R)
      → ((b ≡ true) → o ≡ some info)
      → o ≡ or_default b o
  or_default-known b (some other) info h = refl
  or_default-known false none info h = refl
  or_default-known true none info h = let bad = h refl in cc

  or_default-new :
      (b : Bool) (o : Option (SensorInfo R))
      → ((b ≡ true) → o ≡ none)
      → (if b then some (default_info api) else o) ≡ or_default b o
  or_default-new false (some other) h = refl
  or_default-new true (some other) h = let bad = h refl in cc
  or_default-new false none h = refl
  or_default-new true none h = refl

  get_sensor_info-lookup :
      (k h : ℕ) (m : Map (SensorInfo R))
      → lookup h (get_sensor_info api k m).1 ≡ or_default (k == h) (lookup h m)
  unfolding get_sensor_info
  get_sensor_info-lookup k h m = elim (Option-cases (lookup k m)) [
    | inr (info, e) ↦
        rw (e, get_sensor_info)
          (or_default-known (k == h) (lookup h m) info (λ same. known info e same))
    | inl e ↦
        rw (e, get_sensor_info)
          (lookup-insert k h (default_info api) m
            ∙ or_default-new (k == h) (lookup h m)
                (λ same. ap (λ j. lookup j m) (sym ((==_iff k h).0 same)) ∙ e))
  ]
    where
      known :
          (info : SensorInfo R) → lookup k m ≡ some info → (k == h) ≡ true → lookup h m ≡ some info
      known info e same = ap (λ j. lookup j m) (sym ((==_iff k h).0 same)) ∙ e

  or_default-nothing : (o : Option (SensorInfo R)) → o ≡ or_default false o
  or_default-nothing (some info) = refl
  or_default-nothing none = refl

  or_default-twice :
      (a b : Bool) (o : Option (SensorInfo R))
      → or_default b (or_default a o) ≡ or_default (a || b) o
  or_default-twice a b (some info) = refl
  or_default-twice true b none = refl
  or_default-twice false b none = refl

module _ {R P : Type 0} (api : Interface R) where
  -- Whether an event of the sub-HAL at place i is for the sensor h of the proxy.
  abbrev pub is_posted : ℕ → List (Event P) → ℕ → Bool
  is_posted i events h = any_of (λ e. set_sub_hal_index e.sensor_handle i == h) events

  -- A post keeps every entry of the proxy's sensors, and adds a default one for each sensor that is not
  -- known: so the proxy lists a sensor without a name and with handle 0 once a dynamic sensor has posted.
  pub process_events-lookup :
      (i : ℕ) (events : List (Event P)) (m : Map (SensorInfo R)) (h : ℕ)
      → lookup h (process_events api i events m).2
        ≡ or_default api (is_posted i events h) (lookup h m)
  unfolding process_events
  process_events-lookup i [] m h = or_default-nothing api (lookup h m)
  process_events-lookup i (e ∷ es) m h =
      let k = set_sub_hal_index e.sensor_handle i in
      process_events-lookup i es (get_sensor_info api k m).1 h
      ∙ ap (or_default api (is_posted i es h)) (get_sensor_info-lookup api k h m)
      ∙ or_default-twice api (k == h) (is_posted i es h) (lookup h m)
