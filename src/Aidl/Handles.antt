-- ===== src/Aidl/Handles.antt =====
-- What the constructor of SensorsHalAidl (sensors/aidl) leaves: the handles of its sensors, and no channel.
use bosch_mems_android_hal.Common.{
  ℕ, ◌+◌, ◌<◌, ◌≡◌, refl, sym, ap, ◌∙◌, inl, inr, false, List, [], ◌∷◌, ◌++◌, Option, none, some,
  Map, lookup, insert, keys, All, lookup-insert, ◌==◌, le→ltb, Bool-cases, FloatOps, Bytes, arith,
}
use mathlib.Core.List.{append-nil, append_assoc}
use bosch_mems_android_hal.Core.Types.{SensorData, type_code}
use bosch_mems_android_hal.Aidl.Types.{Interface, SensorInfo, Configuration}
use bosch_mems_android_hal.Aidl.Sensor.{Sensor, make_sensor}
use bosch_mems_android_hal.Aidl.Service.{SensorsHalAidl, get_sensors_list}
use bosch_mems_android_hal.Aidl.Linked.{IsLinked, Agree}
use bosch_mems_android_hal.Aidl.AddSensors.{
  Module, SensorConfig, get_sensor_configuration, read_sensors_config_from_xml, sensor_info_of,
  new_sensor, add_sensors, no_sensors, make_service,
}

below_ne : (h k : ℕ) → k < h → (k == h) ≡ false
below_ne h k l = ground arith

module _ {ℓ} {V : Type ℓ} where
  pub insert-last :
      (h : ℕ) (v : V) (m : Map V) → All (λ k. k < h) (keys m) → insert h v m ≡ m ++ (h, v) ∷ []
  insert-last h v [] b = refl
  insert-last h v ((k, w) ∷ m) (l, b) =
      rw (le→ltb h k (omega arith), below_ne h k l, insert-last h v m b) refl

  pub keys-snoc_below :
      (h : ℕ) (v : V) (m : Map V)
      → All (λ k. k < h) (keys m)
      → All (λ k. k < h + 1) (keys (m ++ (h, v) ∷ []))
  keys-snoc_below h v [] b = (omega arith, b)
  keys-snoc_below h v ((k, w) ∷ m) (l, b) = (omega arith, keys-snoc_below h v m b)

get_sensors_list-snoc :
    {F : Type 0} (h : ℕ) (s : Sensor F) (m : Map (Sensor F))
    → get_sensors_list (m ++ (h, s) ∷ []) ≡ get_sensors_list m ++ s.sensor_info ∷ []
unfolding get_sensors_list
get_sensors_list-snoc h s [] = refl
get_sensors_list-snoc h s ((k, t) ∷ m) = rw (get_sensors_list-snoc h s m) refl

module _ {F : Type 0} (ops : FloatOps F) (api : Interface) where
  -- The infos of the sensors with these data, with the handles n, n + 1, ...
  unfoldable pub numbered : ℕ → List (SensorData F) → List (SensorInfo F)
  numbered n [] = []
  numbered n (d ∷ ds) = sensor_info_of ops api n d ∷ numbered (n + 1) ds

  new_sensor-no_channels :
      (h : ℕ) (d : SensorData F) (config : Option (List (Configuration F)))
      → (new_sensor ops api h d config).direct_channels ≡ []
  unfolding new_sensor make_sensor
  new_sensor-no_channels h d config = refl

  new_sensor-info :
      (h : ℕ) (d : SensorData F) (config : Option (List (Configuration F)))
      → (new_sensor ops api h d config).sensor_info ≡ sensor_info_of ops api h d
  unfolding new_sensor make_sensor
  new_sensor-info h d config = refl

  -- A service that is being built.
  record IsBuilding (v : SensorsHalAidl F) : Type 0 where
    handles : All (λ k. k < v.next_handle) (keys v.sensors)
    no_entry : (j : ℕ) (s : Sensor F) → lookup j v.sensors ≡ some s → s.direct_channels ≡ []
    no_channel : v.direct_channels ≡ []

  added : ℕ → SensorData F → Option (List (Configuration F)) → SensorsHalAidl F → SensorsHalAidl F
  added h d config v = record v {
    next_handle = h + 1;
    sensors = insert h (new_sensor ops api h d config) v.sensors;
  }

  added-IsBuilding :
      (d : SensorData F) (config : Option (List (Configuration F))) (v : SensorsHalAidl F)
      → IsBuilding v
      → IsBuilding (added v.next_handle d config v)
  unfolding added
  added-IsBuilding d config v b = record {
    handles =
        rw (insert-last v.next_handle s v.sensors b.handles)
          (keys-snoc_below v.next_handle s v.sensors b.handles);
    no_entry = no_entry;
    no_channel = b.no_channel;
  }
    where
      s : Sensor F
      s = new_sensor ops api v.next_handle d config

      no_entry :
          (j : ℕ) (t : Sensor F)
          → lookup j (insert v.next_handle s v.sensors) ≡ some t
          → t.direct_channels ≡ []
      no_entry j t e = elim (Bool-cases (v.next_handle == j)) [
        | inl q ↦
            let is : some s ≡ some t =
              sym (lookup-insert v.next_handle j s v.sensors ∙ rw q refl) ∙ e in
            let same : s ≡ t = cc in
            ap (λ u. u.direct_channels) (sym same) ∙ new_sensor-no_channels v.next_handle d config
        | inr q ↦ b.no_entry j t (sym (lookup-insert v.next_handle j s v.sensors ∙ rw q refl) ∙ e)
      ]

  add_sensors-numbered :
      (parse : Bytes → Option (List (Module F))) (configs : List (SensorConfig F))
      (ds : List (SensorData F)) (v : SensorsHalAidl F)
      → read_sensors_config_from_xml parse ≡ some configs
      → IsBuilding v
      → (v' : SensorsHalAidl F) × (add_sensors ops api parse ds v ≡ some v')
        × (get_sensors_list v'.sensors ≡ get_sensors_list v.sensors ++ numbered v.next_handle ds)
        × IsBuilding v'
  unfolding add_sensors numbered added
  add_sensors-numbered parse configs [] v found b =
      (v, refl, sym (append-nil (get_sensors_list v.sensors)), b)
  add_sensors-numbered parse configs (d ∷ ds) v found b =
      let config = get_sensor_configuration configs d.sensor_name (type_code d.sensor_type) in
      let h = v.next_handle in
      let s = new_sensor ops api h d config in
      let (v', made, listed, b') =
        add_sensors-numbered parse configs ds (added h d config v) found
          (added-IsBuilding d config v b) in
      let one : get_sensors_list (insert h s v.sensors)
          ≡ get_sensors_list v.sensors ++ sensor_info_of ops api h d ∷ [] =
        ap get_sensors_list (insert-last h s v.sensors b.handles)
        ∙ get_sensors_list-snoc h s v.sensors
        ∙ ap (λ i. get_sensors_list v.sensors ++ i ∷ []) (new_sensor-info h d config) in
      (
        v',
        rw found made,
        listed
            ∙ ap (λ l. l ++ numbered (h + 1) ds) one
            ∙ append_assoc (get_sensors_list v.sensors) (sensor_info_of ops api h d ∷ [])
                (numbered (h + 1) ds),
        b',
      )

  IsBuilding-IsLinked : (v : SensorsHalAidl F) → IsBuilding v → IsLinked v
  unfolding Agree
  IsBuilding-IsLinked v b = record {
    agree = λ ch h s e. (rw (b.no_entry h s e, b.no_channel) refl);
    covered = λ ch c e. (let no = sym (ap (lookup ch) b.no_channel) ∙ e in cc);
    fresh = λ ch h. ap (lookup ch) b.no_channel;
  }

  -- Where a configuration was found, the constructor makes the service: its list of sensors is that of the
  -- available sensors in their order, numbered from 1, and it satisfies the invariant of the direct channels.
  pub make_service-numbered :
      (parse : Bytes → Option (List (Module F))) (configs : List (SensorConfig F))
      (ds : List (SensorData F))
      → read_sensors_config_from_xml parse ≡ some configs
      → (v : SensorsHalAidl F) × (make_service ops api parse ds ≡ some v)
        × (get_sensors_list v.sensors ≡ numbered 1 ds)
        × IsLinked v
  unfolding make_service get_sensors_list
  make_service-numbered parse configs ds found =
      let (v, made, listed, b) =
        add_sensors-numbered parse configs ds no_sensors found
          (record { handles = tt; no_entry = λ j s e. cc; no_channel = refl }) in
      (v, made, listed, IsBuilding-IsLinked v b)

  -- Where no configuration was found, the constructor is undefined unless there is no sensor at all.
  make_service-unconfigured :
      (parse : Bytes → Option (List (Module F))) (d : SensorData F) (ds : List (SensorData F))
      → read_sensors_config_from_xml parse ≡ none
      → make_service ops api parse (d ∷ ds) ≡ none
  unfolding make_service add_sensors
  make_service-unconfigured parse d ds missing = rw missing refl
