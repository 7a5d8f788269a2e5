-- ===== src/Tests/Aidl.antt =====
-- The theorems on the Sensor of sensors/aidl and its run loop at concrete values.
use mathlib.Core.List.{Memᴰ}
use bosch_mems_android_hal.Common.{
  ℕ, ◌+◌, ◌*◌, ◌^◌, ◌≤◌, ◌≡◌, refl, pos, true, false, ◌||◌, List, [], ◌∷◌, none, some, values,
  lookup, arith,
}
use bosch_mems_android_hal.Aidl.Sensor.{
  Sensor, Channel, int64_max, post_events, make_sensor, batch, clamp_period, add_direct_channel,
  stop_direct_channel, stop_entry, update_direct_channel, direct_rate,
}
use bosch_mems_android_hal.Aidl.Reports.{Answers}
use bosch_mems_android_hal.Aidl.SensorRun.{run_round}
use bosch_mems_android_hal.Aidl.Channels.{IsConsistent}
use bosch_mems_android_hal.Aidl.Requests.{
  adds, stops, entry_after, channel_request, channel_request-lem,
}
use bosch_mems_android_hal.Aidl.Rates.{
  RateRequest, batches, channels, rate_requests, told_after, powered_after, rate_requests-told,
}
use bosch_mems_android_hal.Aidl.Supply.{channel_request-supply, add_direct_channel-untold}
use bosch_mems_android_hal.Aidl.Rounds.{run_round-at_once}
use bosch_mems_android_hal.Tests.Values.{accel_info, busy_sensor, shared_sensor, event}

channel_request-lem_example :
    let s' = (channel_request (adds 8 5000000) shared_sensor).0 in
    ((j : ℕ)
      → lookup j s'.direct_channels
        ≡ entry_after (adds 8 5000000) j (lookup j shared_sensor.direct_channels))
    × IsConsistent s'
channel_request-lem_example = channel_request-lem (adds 8 5000000) shared_sensor

-- Batch to 20 ms, a channel of 10 ms, batch to 40 ms, and the channel stops.
abbrev rate_history : List RateRequest
rate_history =
    batches (pos 20000000) (pos 0)
    ∷ channels (adds 7 10000000)
    ∷ batches (pos 40000000) (pos 0)
    ∷ channels (adds 8 20000000)
    ∷ channels (stops 7)
    ∷ []

rate_requests-told_example :
    let (s, told) = rate_requests rate_history (make_sensor [] accel_info none) none in
    (20000000 ≤ s.sampling_period_ns)
    × ((c : Channel)
        → Memᴰ c (values s.direct_channels)
        → c.enabled ≡ true
        → 20000000 ≤ c.sampling_period_ns)
unfolding rate_requests told_after batch clamp_period make_sensor add_direct_channel
    stop_direct_channel stop_entry update_direct_channel direct_rate
rate_requests-told_example = rate_requests-told [] accel_info none rate_history 20000000 refl

channel_request-supply_example :
    let (s', effects) = channel_request (stops 7) shared_sensor in
    powered_after true effects ≡ (s'.is_enabled || s'.direct_channel_enabled)
channel_request-supply_example = channel_request-supply (stops 7) shared_sensor

abbrev answers : Answers ℕ
answers = record { temperature = some 300; time = λ i. i }

-- The sensor is deactivated while its direct channel is enabled.
abbrev after : Sensor ℕ
after = record shared_sensor { is_enabled = false; next_sample_time_ns = int64_max }

add_direct_channel-untold_example :
    let (t, effects) = add_direct_channel 7 20000000 (make_sensor [] accel_info none) in
    (t.direct_channel_rate_ns ≡ 20000000)
    × (powered_after false effects ≡ true)
    × (told_after none effects ≡ none)
add_direct_channel-untold_example =
    add_direct_channel-untold [] accel_info none 7 20000000 (omega arith) (omega arith)
      (omega arith)

-- The clock of a device that has been up for 78 hours, and a sensor of 16 ms.
run_round-at_once_example :
    let (t, effects, wait) =
      run_round false (8388608 * 2 ^ 25) (8388608 * 2 ^ 25 + 500) (event 1 ∷ []) busy_sensor in
    (effects ≡ post_events (event 1 ∷ []) false ∷ [])
    × (t.next_sample_time_ns ≡ 8388608 * 2 ^ 25)
    × (wait ≡ 1000000)
run_round-at_once_example =
    run_round-at_once false 8388608 25 (8388608 * 2 ^ 25 + 500) (event 1 ∷ []) busy_sensor
      (omega arith) (omega arith) (omega arith) refl refl (omega arith) (omega arith) (omega arith)
      (omega arith)
