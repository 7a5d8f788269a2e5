-- ===== src/Aidl/Supply.antt =====
-- Whether the hardware of a Sensor is powered: what activate and the requests of a direct channel tell the
-- ISensorHal.
use bosch_mems_android_hal.Common.{
  ℕ, ◌*◌, ◌≤◌, ◌<◌, ◌≡◌, refl, ◌∙◌, Bool, true, false, not, ◌&&◌, ◌||◌, ◌++◌, List, [], ◌∷◌, Option,
  none, values, ◌==◌, le→ltb, lt→ltb, bool_ne, if◌then◌else◌, ℤ, arith,
}
use bosch_mems_android_hal.Aidl.Types.{SensorInfo, Configuration}
use bosch_mems_android_hal.Aidl.Sensor.{
  Sensor, hal_activate, hal_batch, int64_max, make_sensor, any_channel, direct_rate,
  add_direct_channel, update_direct_channel,
}
use bosch_mems_android_hal.Aidl.Requests.{
  ChannelRequest, channel_request, table_after, channel_request-eq,
}
use bosch_mems_android_hal.Aidl.Rates.{powered_after, told_after}

powered_after-update :
    (F : Type 0) (b c on was : Bool) (r : ℕ)
    → powered_after {F = F} was
        ((if b then hal_batch r (ℤ.pos 0) ∷ [] else []) ++ (if c then hal_activate on ∷ [] else []))
      ≡ (if c then on else was)
unfolding powered_after
powered_after-update F true true on was r = refl
powered_after-update F true false on was r = refl
powered_after-update F false true on was r = refl
powered_after-update F false false on was r = refl

supply_of :
    (enabled direct any : Bool)
    → (if bool_ne direct any && not enabled then any else enabled || direct) ≡ (enabled || any)
supply_of enabled direct any = ground arith

module _ {F : Type 0} where
  update-supply :
      (s : Sensor F)
      → let (s', effects) = update_direct_channel s in
        powered_after (s.is_enabled || s.direct_channel_enabled) effects
        ≡ (s'.is_enabled || s'.direct_channel_enabled)
  unfolding update_direct_channel
  update-supply s =
      powered_after-update F _ _ _ _ (direct_rate int64_max (values s.direct_channels))
      ∙ supply_of s.is_enabled s.direct_channel_enabled (any_channel s.direct_channels)

  -- Where the hardware is powered exactly if the sensor or one of its direct channels is enabled, this
  -- is so after any request of a direct channel too.
  pub channel_request-supply :
      (r : ChannelRequest) (s : Sensor F)
      → let (s', effects) = channel_request r s in
        powered_after (s.is_enabled || s.direct_channel_enabled) effects
        ≡ (s'.is_enabled || s'.direct_channel_enabled)
  channel_request-supply r s =
      rw (channel_request-eq r s)
        (update-supply (record s { direct_channels = table_after r s.direct_channels }))

module _ {F : Type 0} where
  -- A new sensor whose first request is a direct channel of a period that is not below its shortest delay,
  -- but a 64-bit number that is not the largest: the hardware is turned on, and never told a period.
  pub add_direct_channel-untold :
      (fs : List F) (info : SensorInfo F) (config : Option (List (Configuration F)))
      (handle period : ℕ)
      → 0 < period
      → period < int64_max
      → info.min_delay_us * 1000 ≤ period
      → let (t, effects) = add_direct_channel handle period (make_sensor fs info config) in
        (t.direct_channel_rate_ns ≡ period)
        × (powered_after false effects ≡ true)
        × (told_after none effects ≡ none)
  unfolding add_direct_channel make_sensor update_direct_channel direct_rate powered_after
      told_after
  add_direct_channel-untold fs info config handle period h k l =
      let nonzero : (period == 0) ≡ false = ground arith in
      let longer : (int64_max == period) ≡ false = ground arith in
      rw (nonzero, lt→ltb period int64_max k, longer, le→ltb period (info.min_delay_us * 1000) l)
        (refl, refl, refl)
