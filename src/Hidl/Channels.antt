-- ===== src/Hidl/Channels.antt =====
-- registerDirectChannel, unregisterDirectChannel and configDirectReport of sensors/2.X/Sensors.h. mNextChannelHandle is
-- taken to stay below 2 ^ 31. These calls make a sensor call its ISensorHal only. The loops over the sensors and the switches
-- are in Hidl.Loops.
use bosch_mems_android_hal.Common.{
  ℕ, ◌+◌, ◌/◌, ◌^◌, Bool, ◌&&◌, List, [], ◌∷◌, ◌++◌, none, some, lookup, insert, map, erase, ◌==◌,
  bit_and, if◌then◌else◌,
}
use bosch_mems_android_hal.Core.DirectChannel.{
  DirectChannel, Platform, make_channel, is_valid, get_error,
}
use bosch_mems_android_hal.Aidl.Types.{Interface, has_flag}
use bosch_mems_android_hal.Aidl.ServiceChannels.{RateLevel, is_stop, all_sensors}
use bosch_mems_android_hal.Multihal.Types.{Result, ok, bad_value}
use bosch_mems_android_hal.Subhal.Sensor.{Sensor, add_direct_channel}
use bosch_mems_android_hal.Subhal.Service.{Output, to_hal}
use bosch_mems_android_hal.Hidl.Loops.{rate_in_ns, error_result, remove_from_sensors, stop_sensors}
use bosch_mems_android_hal.Hidl.Service.{Sensors}

module _ {F E : Type 0} where
  -- The answer of a call that fails: the token -1.
  unfoldable pub refused : Sensors F E → Result × ℕ × Sensors F E × List (Output F)
  refused v = (bad_value, all_sensors, v, [])

  -- configDirectReport for a channel and a sensor that are there.
  unfoldable pub config_sensor :
      Interface
      → ℕ
      → ℕ
      → RateLevel
      → DirectChannel E
      → Sensor F
      → Sensors F E
      → Result × ℕ × Sensors F E × List (Output F)
  unfolding refused
  config_sensor api h ch rate c s v =
      let flags = s.sensor_info.flags in
      let max_rate = bit_and flags api.direct_report_mask / 2 ^ api.direct_report_shift in
      if has_flag flags api.direct_channel_ashmem
      then elim (rate_in_ns api max_rate rate) [
        | none ↦ refused v
        | some period ↦
            let c' = record c {
              rate_ns = insert h period c.rate_ns;
              sensor_handles = c.sensor_handles ++ h ∷ [];
            } in
            let (s', effects) = add_direct_channel ch period s in
            (
              ok,
              h,
              record v {
                sensors = insert h s' v.sensors;
                direct_channels = insert ch c' v.direct_channels;
              },
              map (to_hal h) effects,
            )
      ]
      else refused v

  unfoldable pub config_direct_report :
      Interface → ℕ → ℕ → RateLevel → Sensors F E → Result × ℕ × Sensors F E × List (Output F)
  unfolding refused config_sensor
  config_direct_report api h ch rate v = elim (lookup ch v.direct_channels) [
    | none ↦ refused v
    | some c ↦
        if h == all_sensors && is_stop rate
        then (let (rates, m, out) = stop_sensors ch c.sensor_handles c.rate_ns v.sensors in
            (
              ok,
              0,
              record v {
                sensors = m;
                direct_channels = insert ch (record c { rate_ns = rates }) v.direct_channels;
              },
              out,
            ))
        else elim (lookup h v.sensors) [
          | none ↦ refused v
          | some s ↦ config_sensor api h ch rate c s v
        ]
  ]

  -- `is_ashmem` is the test of the memory's type, and `described` whether convertFromSharedMemInfo accepts the
  -- memory.
  unfoldable pub register_direct_channel :
      Platform E → Bool → Bool → ℕ → ℕ → Sensors F E → Result × ℕ × Sensors F E
  register_direct_channel pf is_ashmem described fd bytes v =
      let c = make_channel pf fd bytes in
      let ch = v.next_channel_handle in
      if is_ashmem && described
      then if is_valid c
        then (
          ok,
          ch,
          record v {
            next_channel_handle = ch + 1;
            direct_channels = insert ch c v.direct_channels;
          },
        )
        else (error_result (get_error c), all_sensors, v)
      else (bad_value, all_sensors, v)

  unfoldable pub unregister_direct_channel :
      ℕ → Sensors F E → Result × Sensors F E × List (Output F)
  unregister_direct_channel ch v = elim (lookup ch v.direct_channels) [
    | none ↦ (ok, record v { direct_channels = erase ch v.direct_channels }, [])
    | some c ↦
        let (m, out) = remove_from_sensors ch c.sensor_handles v.sensors in
        (ok, record v { sensors = m; direct_channels = erase ch v.direct_channels }, out)
  ]
