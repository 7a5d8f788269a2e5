-- ===== src/Subhal/Proxied.antt =====
-- HalProxy (sensors/multihal/2.X/HalProxy.cpp) with one sub-HAL, that of sensors/multihal/common.
use mathlib.Core.List.{append_assoc, append-nil}
use bosch_mems_android_hal.Common.{
  ℕ, ◌+◌, ◌^◌, ◌≤◌, ◌<◌, ℤ, ◌≡◌, refl, sym, ap, ◌∙◌, ◌⊎◌, inl, inr, Bool, List, [], ◌∷◌, ◌++◌,
  Option, none, some, Map, insert, keys, All, length, Bool-cases, Bytes, FloatOps, arith,
}
use bosch_mems_android_hal.Core.Types.{SensorData}
use bosch_mems_android_hal.Aidl.Types.{has_flag}
use bosch_mems_android_hal.Aidl.Types as AidlTypes
use bosch_mems_android_hal.Aidl.Sensor as AidlSensor
use bosch_mems_android_hal.Aidl.Service as AidlService
use bosch_mems_android_hal.Aidl.AddSensors.{Module, SensorConfig, make_service}
use bosch_mems_android_hal.Aidl.AddSensors as AidlAdd
use bosch_mems_android_hal.Aidl.Handles.{
  numbered, insert-last, keys-snoc_below, make_service-numbered,
}
use bosch_mems_android_hal.Aidl.DirectBuffer.{SensorsEvent}
use bosch_mems_android_hal.Multihal.Types.{SensorInfo, SubHal, Interface, Result}
use bosch_mems_android_hal.Multihal.Handles.{
  set_sub_hal_index, extract_sub_hal_index, clear_sub_hal_index, is_clear_iff, set-sum, clear-set,
  extract-set,
}
use bosch_mems_android_hal.Multihal.HalProxy.{
  HalProxy, routed, at_place, is_sub_hal_index_valid, activate, batch, flush,
}
use bosch_mems_android_hal.Multihal.Setup.{
  set_direct_channel_flags, add_sensor, add_list, or_none, initialize_sensor_list, make_hal_proxy,
}
use bosch_mems_android_hal.Subhal.Service.{SensorsSubHal, get_sensors_list}
use bosch_mems_android_hal.Subhal.AddSensors.{
  make_sub_hal, sensor_info_of, read_sensors_config_from_xml,
}
use bosch_mems_android_hal.Subhal.SameMaps.{forget_map}
use bosch_mems_android_hal.Subhal.SameService.{forget_service}
use bosch_mems_android_hal.Subhal.SameAdd.{configs-same, flags-same, forget_made, make-same}

keep_handle : (h : ℕ) → h < 2 ^ 24 → set_sub_hal_index h 0 ≡ h
keep_handle h small = set-sum h 0 small (omega arith) ∙ omega arith

-- What a sensor's info holds besides its handle, its type and its flags.
pub record Rest (F : Type 0) : Type 0 where
  pub name : Bytes
  pub vendor : Bytes
  pub version : ℕ
  pub max_range : F
  pub resolution : F
  pub power : F
  pub min_delay_us : ℕ
  pub max_delay_us : ℕ

module _ {F : Type 0} where
  abbrev pub hidl_info : AidlTypes.SensorInfo F → SensorInfo (Rest F)
  hidl_info i = record {
    sensor_handle = i.sensor_handle;
    sensor_type = i.sensor_type;
    flags = i.flags;
    rest = record {
      name = i.name;
      vendor = i.vendor;
      version = i.version;
      max_range = i.max_range;
      resolution = i.resolution;
      power = i.power;
      min_delay_us = i.min_delay_us;
      max_delay_us = i.max_delay_us;
    };
  }

  abbrev pub hidl_infos : List (AidlTypes.SensorInfo F) → List (SensorInfo (Rest F))
  hidl_infos [] = []
  hidl_infos (i ∷ is) = hidl_info i ∷ hidl_infos is

  -- A map with each info at its handle.
  abbrev pub entries : List (AidlTypes.SensorInfo F) → Map (SensorInfo (Rest F))
  entries [] = []
  entries (i ∷ is) = (i.sensor_handle, hidl_info i) ∷ entries is

  listed-same :
      (m : Map (AidlSensor.Sensor F))
      → get_sensors_list (forget_map m) ≡ AidlService.get_sensors_list m
  unfolding get_sensors_list AidlService.get_sensors_list
  listed-same [] = refl
  listed-same ((h, t) ∷ m) = ap (λ l. t.sensor_info ∷ l) (listed-same m)

-- No sub-HAL for direct channels, or the first.
abbrev IsFirst : Option ℕ → Type 0
IsFirst d = (d ≡ none) ⊎ (d ≡ some 0)

module _ {R : Type 0} (papi : Interface R) where
  flags-IsFirst :
      (info : SensorInfo R) (d : Option ℕ)
      → IsFirst d
      → (d' : Option ℕ) × IsFirst d' × (set_direct_channel_flags papi 0 info d ≡ (info, d'))
  unfolding set_direct_channel_flags
  flags-IsFirst info d (inl e) = elim (Bool-cases (has_flag info.flags papi.direct_mask)) [
    | inl b ↦ (some 0, inr refl, rw (e, b) refl)
    | inr b ↦ (none, inl refl, rw (e, b) refl)
  ]
  flags-IsFirst info d (inr e) = (some 0, inr refl, rw e refl)

  add_sensor-IsFirst :
      (info : SensorInfo R) (acc : Map (SensorInfo R)) (d : Option ℕ)
      → info.sensor_handle < 2 ^ 24
      → IsFirst d
      → (d' : Option ℕ) × IsFirst d'
        × (add_sensor papi 0 info (acc, d) ≡ (insert info.sensor_handle info acc, d'))
  unfolding add_sensor
  add_sensor-IsFirst info acc d small first =
      let (d', first', kept) = flags-IsFirst info d first in
      let clear = (is_clear_iff info.sensor_handle (omega (arith, small))).1 small in
      (d', first', rw (clear, keep_handle info.sensor_handle small, kept) refl)

module _ {F : Type 0} (api : AidlTypes.Interface) where
  -- The infos of the sensors with these data, with the handles n, n + 1, ...
  pub numbered_infos : ℕ → List (SensorData F) → List (AidlTypes.SensorInfo F)
  unfolding sensor_info_of
  numbered_infos n [] = []
  numbered_infos n (d ∷ ds) = sensor_info_of api n d ∷ numbered_infos (n + 1) ds

module _ {F : Type 0} (ops : FloatOps F) (api : AidlTypes.Interface) where
  numbered-same :
      (n : ℕ) (ds : List (SensorData F)) → numbered_infos api n ds ≡ numbered ops api n ds
  unfolding numbered_infos numbered sensor_info_of AidlAdd.sensor_info_of
  numbered-same n [] = refl
  numbered-same n (d ∷ ds) = rw (flags-same api d.report_mode, numbered-same (n + 1) ds) refl

module _ {F : Type 0} (api : AidlTypes.Interface) (papi : Interface (Rest F)) where
  add_list-first :
      (n : ℕ) (ds : List (SensorData F)) (acc : Map (SensorInfo (Rest F))) (d : Option ℕ)
      → All (λ k. k < n) (keys acc)
      → IsFirst d
      → n + length ds ≤ 2 ^ 24
      → (add_list papi 0 (hidl_infos (numbered_infos api n ds)) (acc, d)).0
        ≡ acc ++ entries (numbered_infos api n ds)
  unfolding add_list numbered_infos sensor_info_of
  add_list-first n [] acc d below first fits = sym (append-nil acc)
  add_list-first n (s ∷ ds) acc d below first fits =
      let info = hidl_info (sensor_info_of api n s) in
      let (d', first', added) = add_sensor-IsFirst papi info acc d (omega arith) first in
      let placed = insert-last n info acc below in
      let rest =
        add_list-first (n + 1) ds (acc ++ (n, info) ∷ []) d' (keys-snoc_below n info acc below)
          first' (omega (arith, fits)) in
      ap (λ q. (add_list papi 0 (hidl_infos (numbered_infos api (n + 1) ds)) q).0)
        (added ∙ λ i. (placed i, d'))
      ∙ (rest ∙ append_assoc acc ((n, info) ∷ []) (entries (numbered_infos api (n + 1) ds)))

module _ {S R P M : Type 0} (hal : SubHal S R P M) (p : HalProxy S R) (s : S) where
  -- A proxy with the sub-HAL in a state.
  abbrev pub holding : S → HalProxy S R
  holding t = record p { sub_hal_list = t ∷ [] }

  -- The calls for a handle are the sub-HAL's own.
  pub record IsTransparent (h : ℕ) : Type 0 where
    pub activates :
        (enabled : Bool)
        → activate hal h enabled (holding s)
          ≡ (let (result, t) = hal.activate h enabled s in (result, holding t))
    pub batches :
        (period latency : ℤ)
        → batch hal h period latency (holding s)
          ≡ (let (result, t) = hal.batch h period latency s in (result, holding t))
    pub flushes : flush hal h (holding s) ≡ (let (result, t) = hal.flush h s in (result, holding t))

  routed-only :
      (h : ℕ) (f : S → Result × S)
      → h < 2 ^ 24
      → routed h f (holding s) ≡ (let (result, t) = f s in (result, holding t))
  unfolding routed is_sub_hal_index_valid at_place
  routed-only h f small =
      let first : extract_sub_hal_index h ≡ 0 =
        ap extract_sub_hal_index (sym (keep_handle h small))
        ∙ extract-set h 0 small (omega arith) in
      rw first refl

  small-IsTransparent : (h : ℕ) → h < 2 ^ 24 → IsTransparent h
  unfolding activate batch flush
  small-IsTransparent h small =
      let own : clear_sub_hal_index h ≡ h =
        ap clear_sub_hal_index (sym (keep_handle h small)) ∙ clear-set h 0 small (omega arith) in
      record {
        activates = λ enabled. rw own (routed-only h (hal.activate h enabled) small);
        batches = λ period latency. rw own (routed-only h (hal.batch h period latency) small);
        flushes = rw own (routed-only h (hal.flush h) small);
      }

module _ {F P M : Type 0} (ops : FloatOps F) (api : AidlTypes.Interface) (papi : Interface (Rest F))
    (hal : SubHal (SensorsSubHal F (SensorsEvent F)) (Rest F) P M) where
  -- Where a configuration was found and there are less than 2 ^ 24 available sensors, a proxy whose only sub-HAL
  -- is that of the available sensors lists each of them, numbered from 1 in their order, with its type, its flags and its
  -- data; and activate, batch and flush for each of these handles are, in every state, the sub-HAL's own.
  pub one_sub_hal-IsTransparent :
      (parse : Bytes → Option (List (Module F))) (configs : List (SensorConfig F))
      (ds : List (SensorData F))
      → ((v : SensorsSubHal F (SensorsEvent F))
          → hal.get_sensors_list v ≡ some (hidl_infos (get_sensors_list v.sensors)))
      → read_sensors_config_from_xml parse ≡ some configs
      → length ds < 2 ^ 24
      → (v : SensorsSubHal F (SensorsEvent F)) × (make_sub_hal api parse ds ≡ some v)
        × ((make_hal_proxy papi hal (v ∷ [])).sensors ≡ entries (numbered_infos api 1 ds))
        × ((p : HalProxy (SensorsSubHal F (SensorsEvent F)) (Rest F))
              (u : SensorsSubHal F (SensorsEvent F)) (h : ℕ)
            → h ≤ length ds
            → IsTransparent hal p u h)
  unfolding make_hal_proxy initialize_sensor_list or_none
  one_sub_hal-IsTransparent parse configs ds lists found few =
      let (t, made, listed, linked) =
        make_service-numbered ops api parse configs ds (sym (configs-same parse) ∙ found) in
      let v = forget_service t in
      let infos : get_sensors_list v.sensors ≡ numbered_infos api 1 ds =
        listed-same t.sensors ∙ listed ∙ sym (numbered-same ops api 1 ds) in
      (
        v,
        make-same ops api parse ds ∙ ap (forget_made ops api) made,
        rw (lists v, infos)
            (add_list-first api papi 1 ds [] none tt (inl refl) (omega (arith, few))),
        λ p u h listed_at. small-IsTransparent hal p u h (omega (arith, few, listed_at)),
      )
