-- ===== src/Multihal/Routing.antt =====
-- HalProxy's list of sensors (Multihal.Setup) and its calls (Multihal.HalProxy): a sensor of the list is one of a
-- sub-HAL, and a call for it reaches that sub-HAL, with the sub-HAL's own handle.
use mathlib.Core.List.{Memᴰ}
use bosch_mems_android_hal.Common.{
  ℕ, zero, suc, ◌+◌, ◌^◌, ◌≤◌, ◌<◌, ℤ, ◌≡◌, refl, sym, ap, ◌∙◌, Bool, true, List, [], ◌∷◌, Option,
  none, some, Map, lookup, insert, lookup-insert, length, get_elem?, Bool-cases, inl, inr,
  Option-cases, ◌==◌, ==_iff, lt→ltb, arith,
}
use bosch_mems_android_hal.Aidl.Types.{has_flag}
use bosch_mems_android_hal.Multihal.Types.{SensorInfo, SubHal, Interface, Result}
use bosch_mems_android_hal.Multihal.Handles.{
  set_sub_hal_index, sub_hal_index_is_clear, extract_sub_hal_index, clear_sub_hal_index,
  is_clear_iff, clear-set, extract-set,
}
use bosch_mems_android_hal.Multihal.HalProxy.{
  HalProxy, routed, at_place, is_sub_hal_index_valid, activate, batch, flush,
}
use bosch_mems_android_hal.Multihal.Setup.{
  set_direct_channel_flags, add_sensor, add_list, or_none, initialize_sensor_list, make_hal_proxy,
}

module _ {S R : Type 0} (list_of : S → Option (List (SensorInfo R))) (hals : List S) where
  -- An entry of the proxy's list, and the sensor of a sub-HAL that it stands for.
  pub record IsListed (h : ℕ) (info : SensorInfo R) : Type 0 where
    pub place : ℕ
    pub sub_hal : S
    pub infos : List (SensorInfo R)
    pub own : SensorInfo R
    pub sub_hal_is : get_elem? hals place ≡ some sub_hal
    pub infos_are : list_of sub_hal ≡ some infos
    pub own_listed : Memᴰ own infos
    pub own_clear : sub_hal_index_is_clear own.sensor_handle ≡ true
    pub handle_is : h ≡ set_sub_hal_index own.sensor_handle place
    pub keeps_handle : info.sensor_handle ≡ h
    pub keeps_type : info.sensor_type ≡ own.sensor_type
    pub keeps_rest : info.rest ≡ own.rest

  -- All entries of a map are listed.
  abbrev pub AllListed : Map (SensorInfo R) → Type 0
  AllListed m = (h : ℕ) (info : SensorInfo R) → lookup h m ≡ some info → IsListed h info

add_nothing : (i : ℕ) → i ≡ i + 0
add_nothing i = omega arith

nothing_add : (k : ℕ) → k ≡ 0 + k
nothing_add k = omega arith

add_suc : (i k : ℕ) → i + suc k ≡ suc i + k
add_suc i k = omega arith

module _ {R : Type 0} (api : Interface R) where
  flags_only :
      (i : ℕ) (info : SensorInfo R) (d : Option ℕ)
      → ((set_direct_channel_flags api i info d).0.sensor_handle ≡ info.sensor_handle)
        × ((set_direct_channel_flags api i info d).0.sensor_type ≡ info.sensor_type)
        × ((set_direct_channel_flags api i info d).0.rest ≡ info.rest)
  unfolding set_direct_channel_flags
  flags_only i info none = elim (Bool-cases (has_flag info.flags api.direct_mask)) [
    | inl e ↦ rw e (refl, refl, refl)
    | inr e ↦ rw e (refl, refl, refl)
  ]
  flags_only i info (some j) = ground arith

module _ {S R : Type 0} (api : Interface R) (list_of : S → Option (List (SensorInfo R)))
    (hals : List S) where
  add_sensor-AllListed :
      (i : ℕ) (s : S) (infos : List (SensorInfo R)) (own : SensorInfo R)
      (sensors : Map (SensorInfo R)) (d : Option ℕ)
      → get_elem? hals i ≡ some s
      → list_of s ≡ some infos
      → Memᴰ own infos
      → AllListed list_of hals sensors
      → AllListed list_of hals (add_sensor api i own (sensors, d)).0
  unfolding add_sensor
  add_sensor-AllListed i s infos own sensors d at_i infos_are mem ok =
      elim (Bool-cases (sub_hal_index_is_clear own.sensor_handle)) [
        | inr e ↦ rw e ok
        | inl e ↦ rw e (λ h info found. listed e h info found)
      ]
    where
      info' : SensorInfo R
      info' =
          (set_direct_channel_flags api i
            (record own { sensor_handle = set_sub_hal_index own.sensor_handle i }) d).0

      listed :
          sub_hal_index_is_clear own.sensor_handle ≡ true
          → (h : ℕ) (info : SensorInfo R)
          → lookup h (insert (set_sub_hal_index own.sensor_handle i) info' sensors) ≡ some info
          → IsListed list_of hals h info
      listed e h info found =
          let found' =
            sym (lookup-insert (set_sub_hal_index own.sensor_handle i) h info' sensors) ∙ found in
          elim (Bool-cases (set_sub_hal_index own.sensor_handle i == h)) [
            | inr other ↦ ok h info (rw other at found')
            | inl same ↦
                let is_h = (==_iff (set_sub_hal_index own.sensor_handle i) h).0 same in
                let is_info : info' ≡ info = cc (rw same at found') in
                let (handle, kind, rest) =
                  flags_only api i
                    (record own { sensor_handle = set_sub_hal_index own.sensor_handle i }) d in
                record {
                  place = i;
                  sub_hal = s;
                  infos = infos;
                  own = own;
                  sub_hal_is = at_i;
                  infos_are = infos_are;
                  own_listed = mem;
                  own_clear = e;
                  handle_is = sym is_h;
                  keeps_handle =
                      ap (λ (x : SensorInfo R). x.sensor_handle) (sym is_info) ∙ handle ∙ is_h;
                  keeps_type = ap (λ (x : SensorInfo R). x.sensor_type) (sym is_info) ∙ kind;
                  keeps_rest = ap (λ (x : SensorInfo R). x.rest) (sym is_info) ∙ rest;
                }
          ]

  -- The list of one sub-HAL.
  add_list-AllListed :
      (i : ℕ) (s : S) (infos rest : List (SensorInfo R)) (acc : Map (SensorInfo R) × Option ℕ)
      → get_elem? hals i ≡ some s
      → list_of s ≡ some infos
      → ((own : SensorInfo R) → Memᴰ own rest → Memᴰ own infos)
      → AllListed list_of hals acc.0
      → AllListed list_of hals (add_list api i rest acc).0
  unfolding add_list
  add_list-AllListed i s infos [] acc at_i infos_are sub ok = ok
  add_list-AllListed i s infos (own ∷ rest) acc at_i infos_are sub ok =
      add_list-AllListed i s infos rest (add_sensor api i own acc) at_i infos_are
        (λ o m. sub o (Memᴰ.tail m))
        (add_sensor-AllListed i s infos own acc.0 acc.1 at_i infos_are (sub own (Memᴰ.head refl))
          ok)

  -- The sub-HALs from place i on.
  initialize_sensor_list-AllListed :
      (i : ℕ) (ss : List S) (acc : Map (SensorInfo R) × Option ℕ)
      → ((k : ℕ) → get_elem? ss k ≡ get_elem? hals (i + k))
      → AllListed list_of hals acc.0
      → AllListed list_of hals (initialize_sensor_list api list_of i ss acc).0
  unfolding initialize_sensor_list
  initialize_sensor_list-AllListed i [] acc places ok = ok
  initialize_sensor_list-AllListed i (s ∷ ss) acc places ok =
      initialize_sensor_list-AllListed (suc i) ss (add_list api i (or_none api (list_of s)) acc)
        (λ k. places (suc k) ∙ ap (get_elem? hals) (add_suc i k))
        (elim (Option-cases (list_of s)) [
          | inl e ↦ rw (or_none, e) ok
          | inr (infos, e) ↦
              rw (or_none, e)
                (add_list-AllListed i s infos infos acc
                  (ap (get_elem? hals) (add_nothing i) ∙ sym (places 0)) e (λ o m. m) ok)
        ])

get_elem?-lt {ℓ} :
    {A : Type ℓ} (xs : List A) (i : ℕ) (x : A) → get_elem? xs i ≡ some x → i < length xs
get_elem?-lt [] i x h = cc
get_elem?-lt (y ∷ ys) zero x h = omega arith
get_elem?-lt (y ∷ ys) (suc i) x h = omega (arith, get_elem?-lt ys i x h)

-- The handles of the sub-HALs are 32-bit patterns.
abbrev pub HandlesFit : {S R P M : Type 0} → SubHal S R P M → Type 0
HandlesFit {S} {R} hal =
    (s : S) (infos : List (SensorInfo R)) (own : SensorInfo R)
    → hal.get_sensors_list s ≡ some infos
    → Memᴰ own infos
    → own.sensor_handle < 2 ^ 32

module _ {S R P M : Type 0} (api : Interface R) (hal : SubHal S R P M) (hals : List S) where
  -- The calls for a handle of the list are those of a sub-HAL for its own handle.
  pub record IsRouted (h place own_handle : ℕ) : Type 0 where
    pub activates :
        (enabled : Bool) (p : HalProxy S R)
        → length p.sub_hal_list ≡ length hals
        → activate hal h enabled p ≡ at_place place (hal.activate own_handle enabled) p
    pub batches :
        (period latency : ℤ) (p : HalProxy S R)
        → length p.sub_hal_list ≡ length hals
        → batch hal h period latency p ≡ at_place place (hal.batch own_handle period latency) p
    pub flushes :
        (p : HalProxy S R)
        → length p.sub_hal_list ≡ length hals
        → flush hal h p ≡ at_place place (hal.flush own_handle) p

  routed-at_place :
      (h i : ℕ) (f : S → Result × S) (p : HalProxy S R)
      → extract_sub_hal_index h ≡ i
      → i < length p.sub_hal_list
      → routed h f p ≡ at_place i f p
  unfolding routed is_sub_hal_index_valid
  routed-at_place h i f p e small = rw (e, lt→ltb i (length p.sub_hal_list) small) refl

  IsListed-IsRouted :
      (h : ℕ) (info : SensorInfo R)
      → HandlesFit hal
      → length hals ≤ 128
      → (l : IsListed hal.get_sensors_list hals h info) → IsRouted h l.place l.own.sensor_handle
  unfolding activate batch flush
  IsListed-IsRouted h info fits few l =
      let small =
        (is_clear_iff l.own.sensor_handle (fits l.sub_hal l.infos l.own l.infos_are l.own_listed)).0
          l.own_clear in
      let below = get_elem?-lt hals l.place l.sub_hal l.sub_hal_is in
      let place_is : extract_sub_hal_index h ≡ l.place =
        ap extract_sub_hal_index l.handle_is
        ∙ extract-set l.own.sensor_handle l.place small (omega arith) in
      let handle_is : clear_sub_hal_index h ≡ l.own.sensor_handle =
        ap clear_sub_hal_index l.handle_is
        ∙ clear-set l.own.sensor_handle l.place small (omega arith) in
      record {
        activates = λ b p e. rw handle_is (routed-at_place h l.place _ p place_is (omega arith));
        batches = λ t u p e. rw handle_is (routed-at_place h l.place _ p place_is (omega arith));
        flushes = λ p e. rw handle_is (routed-at_place h l.place _ p place_is (omega arith));
      }

  -- For a proxy of at most 128 sub-HALs, whose handles are 32-bit patterns: an entry of its list of sensors is
  -- that of a sensor that a sub-HAL lists with a handle of 24 bits, with the same type and all else but
  -- the flags, and activate, batch and flush for the handle of the entry are the calls of this sub-HAL for
  -- its own handle, in every state with that number of sub-HALs.
  pub make_hal_proxy-routes :
      HandlesFit hal
      → length hals ≤ 128
      → (h : ℕ) (info : SensorInfo R) → lookup h (make_hal_proxy api hal hals).sensors ≡ some info
      → (l : IsListed hal.get_sensors_list hals h info) × IsRouted h l.place l.own.sensor_handle
  unfolding make_hal_proxy
  make_hal_proxy-routes fits few h info found =
      let l =
        initialize_sensor_list-AllListed api hal.get_sensors_list hals 0 hals ([], none)
          (λ k. ap (get_elem? hals) (nothing_add k)) (λ h' info' f. cc) h info found in
      (l, IsListed-IsRouted h info fits few l)
