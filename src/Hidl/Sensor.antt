-- ===== src/Hidl/Sensor.antt =====
-- Sensor of sensors/2.X/Sensor.cpp, where its text is not that of sensors/multihal/common/Sensor.cpp (Subhal.Sensor): the
-- destructor, batch and setOperationMode.
use bosch_mems_android_hal.Common.{
  ℕ, ◌*◌, ℤ, pos, negsuc, true, false, List, [], ◌∷◌, ltb, if◌then◌else◌,
}
use bosch_mems_android_hal.Aidl.Sensor.{Effect, hal_batch}
use bosch_mems_android_hal.Aidl.Reports.{OperationMode}
use bosch_mems_android_hal.Multihal.Types.{Result, ok, bad_value}
use bosch_mems_android_hal.Subhal.Sensor.{Sensor}

-- The period that is not below the shortest delay and not above the longest.
unfoldable pub in_delays : ℕ → ℕ → ℤ → ℕ
in_delays min max (negsuc n) = min
in_delays min max (pos p) = if ltb p min then min else if ltb max p then max else p

module _ {F : Type 0} where
  unfoldable pub batch : ℤ → ℤ → Sensor F → Sensor F × List (Effect F)
  unfolding in_delays
  batch period latency s =
      let info = s.sensor_info in
      let p = in_delays (info.min_delay_us * 1000) (info.max_delay_us * 1000) period in
      (
        record s { sampling_period_ns = p },
        if ltb p s.direct_channel_rate_ns then hal_batch p latency ∷ [] else [],
      )

  -- The destructor, up to the join with the thread of the run loop.
  unfoldable pub destroy : Sensor F → Sensor F
  destroy s = record s { stop_thread = true; is_enabled = false; direct_channel_enabled = false }

unfoldable pub set_operation_mode : OperationMode → Result
set_operation_mode OperationMode.normal = ok
set_operation_mode OperationMode.data_injection = bad_value
