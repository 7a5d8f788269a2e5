-- ===== src/Subhal/Sensor.antt =====
-- Sensor of sensors/multihal/common/Sensor.{h,cpp}: its state, and the requests that make it call its ISensorHal. It
-- is the Sensor of the AIDL service written for HIDL's types, which have the same fields. A method returns the
-- new state and what it does, in order.
use bosch_mems_android_hal.Common.{
  ℕ, ◌*◌, ℤ, pos, negsuc, Bool, true, false, not, ◌&&◌, List, [], ◌∷◌, ◌++◌, Option, none, some,
  Map, lookup, insert, erase, values, any_of, ltb, ◌==◌, bool_ne, if◌then◌else◌,
}
use bosch_mems_android_hal.Aidl.Types.{SensorInfo, Configuration}
use bosch_mems_android_hal.Aidl.Placement.{◌>>=◌}
use bosch_mems_android_hal.Aidl.Sensor.{Channel, Effect, hal_activate, hal_batch, int64_max}

pub record Sensor (F : Type 0) : Type 0 where
  pub is_enabled : Bool
  pub direct_channel_enabled : Bool
  pub sampling_period_ns : ℕ
  pub next_sample_time_ns : ℕ
  pub direct_channel_rate_ns : ℕ
  pub next_direct_channel_ns : ℕ
  pub sensor_info : SensorInfo F
  pub direct_channels : Map Channel
  pub stop_thread : Bool
  pub config : Option (List (Configuration F))

-- std::clamp of an int64_t: `none` where the bounds are in the wrong order, which is undefined.
unfoldable pub clamp : ℕ → ℕ → ℤ → Option ℕ
clamp lo hi (negsuc n) = if ltb hi lo then none else some lo
clamp lo hi (pos p) =
    if ltb hi lo then none else some (if ltb p lo then lo else if ltb hi p then hi else p)

-- The first loop of updateDirectChannel, from `best` on.
unfoldable pub shortest_period : ℕ → List Channel → ℕ
shortest_period best [] = best
shortest_period best (c ∷ cs) =
    shortest_period
      (if c.enabled && ltb c.sampling_period_ns best then c.sampling_period_ns else best) cs

-- The second loop.
unfoldable pub any_enabled : List Channel → Bool
any_enabled cs = any_of (λ c. c.enabled) cs

unfoldable pub disabled : Option Channel → ℕ → Map Channel → Map Channel
disabled none h m = m
disabled (some c) h m = insert h (record c { enabled = false; sampling_period_ns = 0 }) m

module _ {F : Type 0} where
  unfoldable pub make_sensor : SensorInfo F → Option (List (Configuration F)) → Sensor F
  make_sensor info config = record {
    is_enabled = false;
    direct_channel_enabled = false;
    sampling_period_ns = info.min_delay_us * 1000;
    next_sample_time_ns = int64_max;
    direct_channel_rate_ns = int64_max;
    next_direct_channel_ns = int64_max;
    sensor_info = info;
    direct_channels = [];
    stop_thread = false;
    config = config;
  }

  -- The destructor, after which the run loop ends.
  unfoldable pub destroy : Sensor F → Sensor F
  destroy s = record s { stop_thread = true; is_enabled = false; direct_channel_enabled = false }

  unfoldable pub batch : ℤ → ℤ → Sensor F → Option (Sensor F × List (Effect F))
  unfolding clamp
  batch period latency s = do
    p ← clamp (s.sensor_info.min_delay_us * 1000) (s.sensor_info.max_delay_us * 1000) period
    some (
      record s { sampling_period_ns = p },
      if ltb p s.direct_channel_rate_ns then hal_batch p latency ∷ [] else [],
    )

  unfoldable pub update_direct_channel : Sensor F → Sensor F × List (Effect F)
  unfolding shortest_period any_enabled
  update_direct_channel s =
      let rate = shortest_period int64_max (values s.direct_channels) in
      let any = any_enabled (values s.direct_channels) in
      let batches : List (Effect F) =
        if not (s.direct_channel_rate_ns == rate)
        then (if ltb rate s.sampling_period_ns then hal_batch rate (pos 0) ∷ [] else [])
        else [] in
      let flips = bool_ne s.direct_channel_enabled any in
      let activates : List (Effect F) =
        if flips then (if s.is_enabled then [] else hal_activate any ∷ []) else [] in
      (
        record s {
          direct_channel_rate_ns = rate;
          direct_channel_enabled = any;
          next_direct_channel_ns =
              if flips then (if any then 0 else int64_max) else s.next_direct_channel_ns;
        },
        batches ++ activates,
      )

  unfoldable pub stop_direct_channel : ℕ → Sensor F → Sensor F × List (Effect F)
  unfolding disabled
  stop_direct_channel h s =
      update_direct_channel
        (record s { direct_channels = disabled (lookup h s.direct_channels) h s.direct_channels })

  unfoldable pub add_direct_channel : ℕ → ℕ → Sensor F → Sensor F × List (Effect F)
  add_direct_channel h period s =
      let idle : Channel = record { enabled = false; sampling_period_ns = 0 } in
      let busy : Channel = record { enabled = true; sampling_period_ns = period } in
      if period == 0
      then stop_direct_channel h (record s { direct_channels = insert h idle s.direct_channels })
      else update_direct_channel (record s { direct_channels = insert h busy s.direct_channels })

  -- A missing handle is not erased.
  unfoldable pub remove_direct_channel : ℕ → Sensor F → Sensor F × List (Effect F)
  remove_direct_channel h s = update_direct_channel (record s {
    direct_channels = elim (lookup h s.direct_channels) [
      | none ↦ s.direct_channels
      | some c ↦ erase h s.direct_channels
    ];
  })
