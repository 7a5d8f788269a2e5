-- ===== src/Tests/HalProxy.antt =====
-- The theorems on HalProxy at two small sub-HALs.
use mathlib.Core.List.{Memᴰ}
use bosch_mems_android_hal.Common.{
  arith, ℕ, ◌+◌, ◌^◌, ◌<◌, ◌≡◌, refl, subst, true, false, List, [], ◌∷◌, ◌++◌, none, some, map,
  lookup, ◌⊎◌, ltb, All,
}
use bosch_mems_android_hal.Aidl.Reports.{OperationMode}
use bosch_mems_android_hal.Multihal.Types.{
  Result, ok, bad_value, is_ok, SensorInfo, SubHal, Interface,
}
use bosch_mems_android_hal.Multihal.Handles.{
  extract_sub_hal_index, sub_hal_index_is_clear, set_sub_hal_index,
}
use bosch_mems_android_hal.Multihal.HalProxy.{HalProxy, set_operation_mode}
use bosch_mems_android_hal.Multihal.Setup.{
  make_hal_proxy, initialize_sensor_list, add_list, or_none, add_sensor, set_direct_channel_flags,
  without_direct,
}
use bosch_mems_android_hal.Multihal.Routing.{IsListed, IsRouted, HandlesFit, make_hal_proxy-routes}
use bosch_mems_android_hal.Multihal.Direct.{make_hal_proxy-direct}
use bosch_mems_android_hal.Multihal.Modes.{Accepts, in_mode, FailsAt, set_operation_mode_cases}

abbrev pub api : Interface ℕ
api = record {
  direct_mask = 0x780;
  wake_up = 1;
  type_additional_info = 33;
  type_dynamic_sensor_meta = 32;
  type_hinge_angle = 36;
  default_rest = 0;
}

-- A sub-HAL is the number of calls that it had; one that had five refuses a mode.
abbrev pub counting : ℕ → Result × ℕ
counting s = (ok, s + 1)

abbrev pub own_sensor : SensorInfo ℕ
own_sensor = record { sensor_handle = 3; sensor_type = 1; flags = 0x80; rest = 9 }

abbrev pub hal : SubHal ℕ ℕ ℕ ℕ
hal = record {
  get_sensors_list = λ s. some (own_sensor ∷ []);
  set_operation_mode = λ mode s. (if_five s, s + 1);
  activate = λ h enabled s. counting s;
  batch = λ h period latency s. counting s;
  flush = λ h s. counting s;
  inject_sensor_data = λ e s. counting s;
  initialize = λ i s. counting s;
  register_direct_channel = λ mem s. (ok, mem, s + 1);
  unregister_direct_channel = λ ch s. counting s;
  config_direct_report = λ h ch rate s. (ok, h, s + 1);
}
  where
    if_five : ℕ → Result
    if_five s = elim (ltb s 5) [ true ↦ ok | false ↦ bad_value ]

abbrev pub hals : List ℕ
hals = 0 ∷ 5 ∷ []

abbrev Small : List (SensorInfo ℕ) → Type 0
Small infos = (own : SensorInfo ℕ) → Memᴰ own infos → own.sensor_handle < 2 ^ 32

one-Small : Small (own_sensor ∷ [])
one-Small own (Memᴰ.head e) = rw e (omega arith)
one-Small own (Memᴰ.tail m) = elim m [ ]

same : (infos : List (SensorInfo ℕ)) → some (own_sensor ∷ []) ≡ some infos → own_sensor ∷ [] ≡ infos
same infos e = cc

hal-HandlesFit : HandlesFit hal
hal-HandlesFit s infos own listed = subst Small (same infos listed) one-Small own

-- The sensor of the second sub-HAL.
abbrev its_handle : ℕ
its_handle = 0x0100_0003

abbrev its_info : SensorInfo ℕ
its_info = record { sensor_handle = its_handle; sensor_type = 1; flags = 0; rest = 9 }

abbrev first_info : SensorInfo ℕ
first_info = record { sensor_handle = 3; sensor_type = 1; flags = 0x80; rest = 9 }

its_info-found : lookup its_handle (make_hal_proxy api hal hals).sensors ≡ some its_info
unfolding make_hal_proxy initialize_sensor_list add_list or_none add_sensor set_direct_channel_flags
    without_direct sub_hal_index_is_clear set_sub_hal_index
its_info-found = refl

first_info-found : lookup 3 (make_hal_proxy api hal hals).sensors ≡ some first_info
unfolding make_hal_proxy initialize_sensor_list add_list or_none add_sensor set_direct_channel_flags
    without_direct sub_hal_index_is_clear set_sub_hal_index
first_info-found = refl

make_hal_proxy-routes_example :
    (l : IsListed hal.get_sensors_list hals its_handle its_info) × IsRouted api hal hals its_handle
      l.place l.own.sensor_handle
make_hal_proxy-routes_example =
    make_hal_proxy-routes api hal hals hal-HandlesFit (omega arith) its_handle its_info
      its_info-found

make_hal_proxy-direct_example :
    (make_hal_proxy api hal hals).direct_channel_sub_hal ≡ some (extract_sub_hal_index 3)
make_hal_proxy-direct_example =
    make_hal_proxy-direct api hal hals hal-HandlesFit (omega arith) (omega arith) 3 first_info
      first_info-found refl

-- The second sub-HAL refuses the mode.
abbrev pub proxy : HalProxy ℕ ℕ
proxy = record {
  sub_hal_list = hals;
  sensors = [];
  dynamic_sensors = [];
  current_operation_mode = OperationMode.normal;
  direct_channel_sub_hal = none;
}

set_operation_mode_cases_example :
    (All (Accepts hal OperationMode.data_injection) hals
      × (is_ok (set_operation_mode hal OperationMode.data_injection proxy).0 ≡ true)
      × ((set_operation_mode hal OperationMode.data_injection proxy).1 ≡ record proxy {
        sub_hal_list = map (in_mode hal OperationMode.data_injection) hals;
        current_operation_mode = OperationMode.data_injection;
      }))
    ⊎ ((f : FailsAt hal OperationMode.data_injection hals
          (set_operation_mode hal OperationMode.data_injection proxy).0)
        × ((set_operation_mode hal OperationMode.data_injection proxy).1 ≡ record proxy {
          sub_hal_list =
              map
                (in_mode hal OperationMode.normal)
                (map (in_mode hal OperationMode.data_injection) f.before)
              ++ in_mode hal OperationMode.data_injection f.failing ∷ f.after;
        }))
set_operation_mode_cases_example = set_operation_mode_cases hal OperationMode.data_injection proxy
