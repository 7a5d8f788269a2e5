-- ===== src/Tests/Posts.antt =====
-- The theorems on the threads and the posts of HalProxy at concrete values.
use bosch_mems_android_hal.Common.{
  arith, ℕ, ◌+◌, ◌<◌, ◌^◌, ◌≡◌, refl, Bool, true, false, List, [], ◌∷◌, none, some, ◌&&◌, lookup,
}
use bosch_mems_android_hal.Aidl.Reports.{OperationMode}
use bosch_mems_android_hal.Multihal.Types.{is_ok, SensorInfo, Event}
use bosch_mems_android_hal.Multihal.Handles.{set_sub_hal_index}
use bosch_mems_android_hal.Multihal.WakeRefs.{WakeRefs}
use bosch_mems_android_hal.Multihal.PendingWrites.{PendingWrites, PostAnswers}
use bosch_mems_android_hal.Multihal.Waiting.{waiting, IsValid}
use bosch_mems_android_hal.Multihal.Held.{held_after, is_counted}
use bosch_mems_android_hal.Multihal.Fifo.{run}
use bosch_mems_android_hal.Multihal.Drain.{rounds, rounds-drain}
use bosch_mems_android_hal.Multihal.Initialize.{
  InitAnswers, initialize_common, queues_result, disable_all_sensors,
}
use bosch_mems_android_hal.Multihal.Restart.{all_initialize, initialize_common-restarts}
use bosch_mems_android_hal.Multihal.Callback.{get_sensor_info, process_events, sub_hal_post_events}
use bosch_mems_android_hal.Multihal.Counted.{wakeups_of, sub_hal_post_events-counts}
use bosch_mems_android_hal.Multihal.Unknown.{is_posted, or_default, process_events-lookup}
use bosch_mems_android_hal.Tests.HalProxy.{api, hal, proxy}

-- The wake lock is held for two events.
abbrev refs : WakeRefs
refs = record {
  threads_run = true;
  wakelock_ref_count = 2;
  wakelock_timeout_start_time = 4;
  wakelock_timeout_reset_time = 3;
}

-- A vector of three events and one of a single event.
abbrev two_vectors : PendingWrites ℕ
two_vectors = record {
  wake_refs = refs;
  pending = (10 ∷ 11 ∷ 12 ∷ [], 2) ∷ (13 ∷ [], 0) ∷ [];
  size_pending = 4;
  most_observed = 4;
  writing = none;
}

two_vectors-IsValid : IsValid 2 two_vectors
two_vectors-IsValid = record { sized = refl; started = λ n e. cc }

-- The third write fails.
abbrev six_answers : List Bool
six_answers = true ∷ true ∷ false ∷ true ∷ true ∷ true ∷ []

rounds-drain_example :
    ((run (λ e. true) 2 (rounds (λ e. true) 2 six_answers) two_vectors).0.pending ≡ [])
    × ((run (λ e. true) 2 (rounds (λ e. true) 2 six_answers) two_vectors).0.size_pending ≡ 0)
    × ((run (λ e. true) 2 (rounds (λ e. true) 2 six_answers) two_vectors).1 ≡ waiting two_vectors)
rounds-drain_example =
    rounds-drain (λ e. true) 2 six_answers two_vectors two_vectors-IsValid (omega arith) refl refl
      (omega arith)

-- A write of two events is under way at the new start.
abbrev under_way : PendingWrites ℕ
under_way = record two_vectors { writing = some 2 }

under_way-IsValid : IsValid 2 under_way
under_way-IsValid = record {
  sized = refl;
  started = λ n e. (10 ∷ 11 ∷ 12 ∷ [], 2, (13 ∷ [], 0) ∷ [], refl, cc);
}

abbrev init_answers : InitAnswers
init_answers = record {
  event_flag_created = true;
  wakelock_flag_created = true;
  queues_present = true;
  event_flag_present = true;
  joined_at = 20;
  reset_at = 21;
}

initialize_common-restarts_example :
    let (result, p', q', calls) =
      initialize_common hal (λ e. true) 2 init_answers false proxy under_way in
    IsValid 2 q'
    × (waiting q' ≡ [])
    × (q'.writing ≡ none)
    × (q'.wake_refs.threads_run ≡ true)
    × (p'.dynamic_sensors ≡ [])
    × (p'.current_operation_mode ≡ OperationMode.normal)
    × (p'.sensors ≡ proxy.sensors)
    × (p'.direct_channel_sub_hal ≡ proxy.direct_channel_sub_hal)
    × (is_ok result
        ≡ is_ok (queues_result init_answers)
          && all_initialize hal 0 (disable_all_sensors hal proxy).sub_hal_list)
    × (q'.wake_refs.wakelock_ref_count ≡ 2)
    × (calls ≡ [])
initialize_common-restarts_example =
    initialize_common-restarts hal (λ e. true) 2 init_answers false proxy under_way
      under_way-IsValid

abbrev wake_up_sensor : SensorInfo ℕ
wake_up_sensor = record { sensor_handle = 0x0100_0003; sensor_type = 8; flags = 1; rest = 9 }

abbrev its_event : Event ℕ
its_event = record { sensor_handle = 3; sensor_type = 8; dynamic_handle = 0; rest = 70 }

abbrev other_event : Event ℕ
other_event = record { sensor_handle = 5; sensor_type = 8; dynamic_handle = 0; rest = 71 }

abbrev no_events : PendingWrites (Event ℕ)
no_events = record {
  wake_refs = refs;
  pending = [];
  size_pending = 0;
  most_observed = 0;
  writing = none;
}

abbrev post_answers : PostAnswers
post_answers = record { available = 1; writes = true; now = 9 }

fits :
    2 + 1 + wakeups_of api 1 (its_event ∷ other_event ∷ []) ((0x0100_0003, wake_up_sensor) ∷ [])
    < 2 ^ 64
unfolding process_events get_sensor_info set_sub_hal_index
fits = omega arith

sub_hal_post_events-counts_example :
    let (m', q', written, calls) =
      sub_hal_post_events api 1 8 post_answers
        (its_event ∷ other_event ∷ [])
        true
        ((0x0100_0003, wake_up_sensor) ∷ [])
        no_events in
    (q'.wake_refs.wakelock_ref_count
      ≡ 2 + wakeups_of api 1 (its_event ∷ other_event ∷ []) ((0x0100_0003, wake_up_sensor) ∷ []))
    × (held_after (is_counted refs) calls ≡ is_counted q'.wake_refs)
sub_hal_post_events-counts_example =
    sub_hal_post_events-counts api 1 8 post_answers its_event (other_event ∷ []) true
      ((0x0100_0003, wake_up_sensor) ∷ []) no_events refl (omega arith) fits

-- The sensor of the second event is not known.
process_events-lookup_example :
    lookup 0x0100_0005
      (process_events api 1 (its_event ∷ other_event ∷ []) ((0x0100_0003, wake_up_sensor) ∷ [])).2
    ≡ or_default api
        (is_posted api 1 (its_event ∷ other_event ∷ []) 0x0100_0005)
        (lookup 0x0100_0005 ((0x0100_0003, wake_up_sensor) ∷ []))
process_events-lookup_example =
    process_events-lookup api 1 (its_event ∷ other_event ∷ []) ((0x0100_0003, wake_up_sensor) ∷ [])
      0x0100_0005
