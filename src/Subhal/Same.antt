-- ===== src/Subhal/Same.antt =====
-- The Sensor of the sub-HAL (sensors/multihal/common/Sensor.cpp) and that of the AIDL service (sensors/aidl/Sensor.cpp)
-- under the requests that make them call their ISensorHal.
use bosch_mems_android_hal.Common.{
  ℕ, ◌*◌, ◌≤◌, ℤ, pos, negsuc, ◌≡◌, refl, ap, inl, inr, Bool, true, false, not, ◌&&◌, List, [], ◌∷◌,
  Option, none, some, Map, lookup, erase, values, ltb, le→ltb, ◌==◌, bool_ne, if◌then◌else◌,
  Bool-cases, Option-cases, arith,
}
use bosch_mems_android_hal.Aidl.Sensor.{
  Channel, Effect, hal_batch, hal_activate, clamp_period, direct_rate, any_channel, stop_entry,
  int64_max,
}
use bosch_mems_android_hal.Aidl.Sensor as AidlSensor
use bosch_mems_android_hal.Subhal.Sensor.{
  clamp, shortest_period, any_enabled, disabled, batch, update_direct_channel, stop_direct_channel,
  add_direct_channel, remove_direct_channel,
}
use bosch_mems_android_hal.Subhal.Sensor as SubhalSensor

clamp-same : (lo hi : ℕ) (p : ℤ) → lo ≤ hi → clamp lo hi p ≡ some (clamp_period lo hi p)
unfolding clamp clamp_period
clamp-same lo hi (negsuc n) h = rw (le→ltb hi lo h) refl
clamp-same lo hi (pos p) h = rw (le→ltb hi lo h) refl

shortest-same : (best : ℕ) (cs : List Channel) → shortest_period best cs ≡ direct_rate best cs
unfolding shortest_period direct_rate
shortest-same best [] = refl
shortest-same best (c ∷ cs) =
    shortest-same
      (if c.enabled && ltb c.sampling_period_ns best then c.sampling_period_ns else best) cs

disabled-same : (o : Option Channel) (h : ℕ) (m : Map Channel) → disabled o h m ≡ stop_entry o h m
unfolding disabled stop_entry
disabled-same none h m = refl
disabled-same (some c) h m = refl

erase-missing {ℓ} : {V : Type ℓ} (h : ℕ) (m : Map V) → lookup h m ≡ none → erase h m ≡ m
erase-missing h [] e = refl
erase-missing h ((k, v) ∷ m) e = elim (Bool-cases (k == h)) [
  | inl same ↦ let bad = rw same at e in cc
  | inr other ↦ rw other (ap (λ l. (k, v) ∷ l) (erase-missing h m (rw other at e)))
]

if-and {ℓ} :
    {A : Type ℓ} (a b : Bool) (x y : A)
    → (if a then (if b then x else y) else y) ≡ (if a && b then x else y)
if-and true b x y = refl
if-and false b x y = refl

if-not {ℓ} : {A : Type ℓ} (b : Bool) (x y : A) → (if b then x else y) ≡ (if not b then y else x)
if-not true x y = refl
if-not false x y = refl

module _ {F : Type 0} where
  -- The sensor of the sub-HAL keeps no values of the additional info.
  abbrev pub forget : AidlSensor.Sensor F → SubhalSensor.Sensor F
  forget t = record {
    is_enabled = t.is_enabled;
    direct_channel_enabled = t.direct_channel_enabled;
    sampling_period_ns = t.sampling_period_ns;
    next_sample_time_ns = t.next_sample_time_ns;
    direct_channel_rate_ns = t.direct_channel_rate_ns;
    next_direct_channel_ns = t.next_direct_channel_ns;
    sensor_info = t.sensor_info;
    direct_channels = t.direct_channels;
    stop_thread = t.stop_thread;
    config = t.config;
  }

  abbrev pub forget_in :
      AidlSensor.Sensor F × List (Effect F) → SubhalSensor.Sensor F × List (Effect F)
  forget_in (t, effects) = (forget t, effects)

  pub update-same :
      (t : AidlSensor.Sensor F)
      → update_direct_channel (forget t) ≡ forget_in (AidlSensor.update_direct_channel t)
  unfolding update_direct_channel AidlSensor.update_direct_channel any_enabled
  update-same t =
      let rate = direct_rate int64_max (values t.direct_channels) in
      let any = any_channel t.direct_channels in
      let flips = bool_ne t.direct_channel_enabled any in
      let batches : List (Effect F) = hal_batch rate (pos 0) ∷ [] in
      let activates : List (Effect F) = hal_activate any ∷ [] in
      rw
        (
          shortest-same int64_max (values t.direct_channels),
          if-and (not (t.direct_channel_rate_ns == rate)) (ltb rate t.sampling_period_ns) batches
              [],
          if-not t.is_enabled [] activates,
          if-and flips (not t.is_enabled) activates [],
        )
        refl

  pub batch-same :
      (period latency : ℤ) (t : AidlSensor.Sensor F)
      → t.sensor_info.min_delay_us ≤ t.sensor_info.max_delay_us
      → batch period latency (forget t) ≡ some (forget_in (AidlSensor.batch period latency t))
  unfolding batch AidlSensor.batch
  batch-same period latency t h =
      rw
        (clamp-same (t.sensor_info.min_delay_us * 1000) (t.sensor_info.max_delay_us * 1000) period
          (omega arith))
        refl

  pub stop-same :
      (h : ℕ) (t : AidlSensor.Sensor F)
      → stop_direct_channel h (forget t) ≡ forget_in (AidlSensor.stop_direct_channel h t)
  unfolding stop_direct_channel AidlSensor.stop_direct_channel
  stop-same h t = rw (disabled-same (lookup h t.direct_channels) h t.direct_channels) (
      update-same (record t {
        direct_channels = stop_entry (lookup h t.direct_channels) h t.direct_channels;
      }))

  pub add-same :
      (h period : ℕ) (t : AidlSensor.Sensor F)
      → add_direct_channel h period (forget t)
        ≡ forget_in (AidlSensor.add_direct_channel h period t)
  unfolding add_direct_channel AidlSensor.add_direct_channel
  add-same h period t = elim (Bool-cases (period == 0)) [
    | inl e ↦ rw e (stop-same h _)
    | inr e ↦ rw e (update-same _)
  ]

  pub remove-same :
      (h : ℕ) (t : AidlSensor.Sensor F)
      → remove_direct_channel h (forget t) ≡ forget_in (AidlSensor.remove_direct_channel h t)
  unfolding remove_direct_channel AidlSensor.remove_direct_channel
  remove-same h t = elim (Option-cases (lookup h t.direct_channels)) [
    | inl e ↦ rw (e, erase-missing h t.direct_channels e) (update-same t)
    | inr (c, e) ↦ rw e (update-same (record t { direct_channels = erase h t.direct_channels }))
  ]
