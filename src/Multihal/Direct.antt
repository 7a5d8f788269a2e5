-- ===== src/Multihal/Direct.antt =====
-- HalProxy's list of sensors (Multihal.Setup): only the sensors of one sub-HAL keep their flags for direct channels.
use mathlib.Core.List.{Memᴰ}
use bosch_mems_android_hal.Common.{
  ℕ, suc, ◌+◌, ◌^◌, ◌≤◌, ◌<◌, ◌≡◌, refl, sym, ap, ◌∙◌, Bool, true, false, List, [], ◌∷◌, Option,
  none, some, Map, lookup, insert, lookup-insert, length, Bool-cases, Option-cases, inl, inr, ◌==◌,
  ==_iff, arith, and-cleared,
}
use bosch_mems_android_hal.Aidl.Types.{has_flag}
use bosch_mems_android_hal.Multihal.Types.{SensorInfo, SubHal, Interface}
use bosch_mems_android_hal.Multihal.Handles.{
  set_sub_hal_index, sub_hal_index_is_clear, extract_sub_hal_index, is_clear_iff, extract-set,
}
use bosch_mems_android_hal.Multihal.Routing.{HandlesFit}
use bosch_mems_android_hal.Multihal.Setup.{
  without_direct, set_direct_channel_flags, add_sensor, add_list, or_none, initialize_sensor_list,
  make_hal_proxy,
}

module _ {R : Type 0} (api : Interface R) where
  abbrev pub is_direct : SensorInfo R → Bool
  is_direct info = has_flag info.flags api.direct_mask

  -- Every entry that has a flag for direct channels is of the sub-HAL that has been chosen.
  abbrev pub OneDirect : Map (SensorInfo R) × Option ℕ → Type 0
  OneDirect (sensors, direct) =
      (h : ℕ) (info : SensorInfo R)
      → lookup h sensors ≡ some info
      → is_direct info ≡ true
      → direct ≡ some (extract_sub_hal_index h)

  without_direct-is_direct :
      (info : SensorInfo R) → api.direct_mask < 2 ^ 32 → is_direct (without_direct api info) ≡ false
  unfolding without_direct
  without_direct-is_direct info small = rw (and-cleared 32 api.direct_mask info.flags small) refl

  insert-OneDirect :
      (h : ℕ) (info : SensorInfo R) (sensors : Map (SensorInfo R)) (d d' : Option ℕ)
      → (is_direct info ≡ true → d' ≡ some (extract_sub_hal_index h))
      → ((j : ℕ) → d ≡ some j → d' ≡ some j)
      → OneDirect (sensors, d)
      → OneDirect (insert h info sensors, d')
  insert-OneDirect h info sensors d d' new keeps ok k other found direct =
      let found' = sym (lookup-insert h k info sensors) ∙ found in
      elim (Bool-cases (h == k)) [
        | inl same ↦
            let is_k = (==_iff h k).0 same in
            let is_other : info ≡ other = cc (rw same at found') in
            new (ap is_direct is_other ∙ direct) ∙ ap (λ n. some (extract_sub_hal_index n)) is_k
        | inr differ ↦ keeps (extract_sub_hal_index k) (ok k other (rw differ at found') direct)
      ]

  set_direct_channel_flags-chosen :
      (i : ℕ) (info : SensorInfo R) (d : Option ℕ)
      → api.direct_mask < 2 ^ 32
      → (is_direct (set_direct_channel_flags api i info d).0 ≡ true
          → (set_direct_channel_flags api i info d).1 ≡ some i)
        × ((j : ℕ) → d ≡ some j → (set_direct_channel_flags api i info d).1 ≡ some j)
  unfolding set_direct_channel_flags
  set_direct_channel_flags-chosen i info none small = elim (Bool-cases (is_direct info)) [
    | inl e ↦ rw e ((λ t. refl), λ j f. cc)
    | inr e ↦ rw e ((λ t. cc), λ j f. cc)
  ]
  set_direct_channel_flags-chosen i info (some k) small = elim (Bool-cases (i == k)) [
    | inl e ↦ rw e ((λ t. ap some (sym ((==_iff i k).0 e))), λ j f. f)
    | inr e ↦ rw e ((λ t. let f = without_direct-is_direct info small in cc), λ j f. f)
  ]

  add_sensor-OneDirect :
      (i : ℕ) (own : SensorInfo R) (acc : Map (SensorInfo R) × Option ℕ)
      → api.direct_mask < 2 ^ 32
      → i < 128
      → own.sensor_handle < 2 ^ 32
      → OneDirect acc
      → OneDirect (add_sensor api i own acc)
  unfolding add_sensor
  add_sensor-OneDirect i own (sensors, d) small few fits ok =
      elim (Bool-cases (sub_hal_index_is_clear own.sensor_handle)) [
        | inr e ↦ rw e ok
        | inl e ↦
            let h = set_sub_hal_index own.sensor_handle i in
            let (new, keeps) =
              set_direct_channel_flags-chosen i (record own { sensor_handle = h }) d small in
            let at_i =
              extract-set own.sensor_handle i ((is_clear_iff own.sensor_handle fits).0 e) few in
            rw e (insert-OneDirect h _ sensors d _ (λ t. new t ∙ ap some (sym at_i)) keeps ok)
      ]

  add_list-OneDirect :
      (i : ℕ) (infos : List (SensorInfo R)) (acc : Map (SensorInfo R) × Option ℕ)
      → api.direct_mask < 2 ^ 32
      → i < 128
      → ((own : SensorInfo R) → Memᴰ own infos → own.sensor_handle < 2 ^ 32)
      → OneDirect acc
      → OneDirect (add_list api i infos acc)
  unfolding add_list
  add_list-OneDirect i [] acc small few fits ok = ok
  add_list-OneDirect i (own ∷ infos) acc small few fits ok =
      add_list-OneDirect i infos (add_sensor api i own acc) small few (λ o m. fits o (Memᴰ.tail m))
        (add_sensor-OneDirect i own acc small few (fits own (Memᴰ.head refl)) ok)

module _ {S R P M : Type 0} (api : Interface R) (hal : SubHal S R P M) where
  initialize_sensor_list-OneDirect :
      (i : ℕ) (ss : List S) (acc : Map (SensorInfo R) × Option ℕ)
      → HandlesFit hal
      → api.direct_mask < 2 ^ 32
      → i + length ss ≤ 128
      → OneDirect api acc
      → OneDirect api (initialize_sensor_list api hal.get_sensors_list i ss acc)
  unfolding initialize_sensor_list
  initialize_sensor_list-OneDirect i [] acc fits small few ok = ok
  initialize_sensor_list-OneDirect i (s ∷ ss) acc fits small few ok =
      initialize_sensor_list-OneDirect (suc i) ss _ fits small (omega arith)
        (elim (Option-cases (hal.get_sensors_list s)) [
          | inl e ↦ rw (or_none, e) ok
          | inr (infos, e) ↦
              rw (or_none, e)
                (add_list-OneDirect api i infos acc small (omega arith) (λ o m. fits s infos o e m)
                  ok)
        ])

  -- Where at most 128 sub-HALs have handles that are 32-bit patterns, all entries of the list of a new
  -- proxy that have a flag for direct channels are sensors of the one sub-HAL to which the proxy
  -- passes the calls for direct channels.
  pub make_hal_proxy-direct :
      (hals : List S)
      → HandlesFit hal
      → api.direct_mask < 2 ^ 32
      → length hals ≤ 128
      → (h : ℕ) (info : SensorInfo R) → lookup h (make_hal_proxy api hal hals).sensors ≡ some info
      → has_flag info.flags api.direct_mask ≡ true
      → (make_hal_proxy api hal hals).direct_channel_sub_hal ≡ some (extract_sub_hal_index h)
  unfolding make_hal_proxy
  make_hal_proxy-direct hals fits small few =
      initialize_sensor_list-OneDirect 0 hals ([], none) fits small (omega arith) (λ h info f. cc)
