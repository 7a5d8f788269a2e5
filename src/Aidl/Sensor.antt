-- ===== src/Aidl/Sensor.antt =====
-- Sensor of sensors/aidl/include/sensors-impl/Sensor.h and sensors/aidl/Sensor.cpp. A method returns the new
-- state and what it does, in order: the calls of the ISensorHal and of the callback. All methods
-- hold the mutex of the run loop, so they are steps. The ISensorHal's answers are arguments.
use bosch_mems_android_hal.Common.{
  ℕ, ◌*◌, ◌-◌, ◌^◌, ℤ, pos, negsuc, Bool, true, false, not, ◌&&◌, List, [], ◌∷◌, ◌++◌, Option, none,
  some, Map, lookup, insert, erase, values, any_of, ltb, ◌==◌, bool_ne, if◌then◌else◌,
}
use bosch_mems_android_hal.Aidl.Types.{SensorInfo, Event, Configuration}

pub record Channel : Type 0 where
  pub enabled : Bool
  pub sampling_period_ns : ℕ

pub record Sensor (F : Type 0) : Type 0 where
  pub is_enabled : Bool
  pub direct_channel_enabled : Bool
  pub sampling_period_ns : ℕ
  pub next_sample_time_ns : ℕ
  pub direct_channel_rate_ns : ℕ
  pub next_direct_channel_ns : ℕ
  pub sensor_info : SensorInfo F
  pub direct_channels : Map Channel
  pub additional_info_values : List F
  pub stop_thread : Bool
  pub config : Option (List (Configuration F))

-- What a method does to the ISensorHal (`hal_…`) and to the callback.
pub data Effect (F : Type 0) : Type 0 where
  hal_activate : Bool → Effect F
  hal_batch : ℕ → ℤ → Effect F
  post_events : List (Event F) → Bool → Effect F
  write_to_direct_buffer : List (Event F) → ℕ → Effect F

-- std::numeric_limits<int64_t>::max()
abbrev pub int64_max : ℕ
int64_max = 2 ^ 63 - 1

-- The delays are not negative, so a negative period is below the shortest.
unfoldable pub clamp_period : ℕ → ℕ → ℤ → ℕ
clamp_period shortest longest (negsuc n) = shortest
clamp_period shortest longest (pos p) =
    if ltb p shortest then shortest else if ltb longest p then longest else p

-- The shortest period of the enabled channels, int64_max where there is none: the loop from `best` on.
unfoldable pub direct_rate : ℕ → List Channel → ℕ
direct_rate best [] = best
direct_rate best (c ∷ cs) =
    direct_rate (if c.enabled && ltb c.sampling_period_ns best then c.sampling_period_ns else best)
      cs

abbrev pub any_channel : Map Channel → Bool
any_channel m = any_of (λ c. c.enabled) (values m)

unfoldable pub stop_entry : Option Channel → ℕ → Map Channel → Map Channel
stop_entry none h m = m
stop_entry (some c) h m = insert h (record { enabled = false; sampling_period_ns = 0 }) m

module _ {F : Type 0} where
  unfoldable pub make_sensor : List F → SensorInfo F → Option (List (Configuration F)) → Sensor F
  make_sensor values info config = record {
    is_enabled = false;
    direct_channel_enabled = false;
    sampling_period_ns = info.min_delay_us * 1000;
    next_sample_time_ns = int64_max;
    direct_channel_rate_ns = int64_max;
    next_direct_channel_ns = int64_max;
    sensor_info = info;
    direct_channels = [];
    additional_info_values = values;
    stop_thread = false;
    config = config;
  }

  -- The destructor, up to the join with the thread of the run loop.
  unfoldable pub destroy : Sensor F → Sensor F
  destroy s = record s { stop_thread = true; is_enabled = false; direct_channel_enabled = false }

  unfoldable pub batch : ℤ → ℤ → Sensor F → Sensor F × List (Effect F)
  batch period latency s =
      let info = s.sensor_info in
      let p = clamp_period (info.min_delay_us * 1000) (info.max_delay_us * 1000) period in
      (
        record s { sampling_period_ns = p },
        if ltb p s.direct_channel_rate_ns then hal_batch p latency ∷ [] else [],
      )

  unfoldable pub update_direct_channel : Sensor F → Sensor F × List (Effect F)
  update_direct_channel s =
      let rate = direct_rate int64_max (values s.direct_channels) in
      let any = any_channel s.direct_channels in
      let batches : List (Effect F) =
        if not (s.direct_channel_rate_ns == rate) && ltb rate s.sampling_period_ns
        then hal_batch rate (pos 0) ∷ []
        else [] in
      let flips = bool_ne s.direct_channel_enabled any in
      let activates : List (Effect F) =
        if flips && not s.is_enabled then hal_activate any ∷ [] else [] in
      (
        record s {
          direct_channel_rate_ns = rate;
          direct_channel_enabled = any;
          next_direct_channel_ns =
              if flips then (if any then 0 else int64_max) else s.next_direct_channel_ns;
        },
        batches ++ activates,
      )

  unfoldable pub stop_direct_channel : ℕ → Sensor F → Sensor F × List (Effect F)
  unfolding stop_entry
  stop_direct_channel h s =
      update_direct_channel
        (record s { direct_channels = stop_entry (lookup h s.direct_channels) h s.direct_channels })

  unfoldable pub add_direct_channel : ℕ → ℕ → Sensor F → Sensor F × List (Effect F)
  add_direct_channel h period s =
      let idle : Channel = record { enabled = false; sampling_period_ns = 0 } in
      let busy : Channel = record { enabled = true; sampling_period_ns = period } in
      if period == 0
      then stop_direct_channel h (record s { direct_channels = insert h idle s.direct_channels })
      else update_direct_channel (record s { direct_channels = insert h busy s.direct_channels })

  -- `erase` of a missing handle changes nothing.
  unfoldable pub remove_direct_channel : ℕ → Sensor F → Sensor F × List (Effect F)
  remove_direct_channel h s =
      update_direct_channel (record s { direct_channels = erase h s.direct_channels })
