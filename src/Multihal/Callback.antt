-- ===== src/Multihal/Callback.antt =====
-- ScopedWakelock (sensors/multihal/2.X/ScopedWakelock.cpp), and HalProxyCallbackBase
-- (sensors/multihal/2.X/HalProxyCallback.cpp), by which a sub-HAL posts its events; and postEvents of
-- sensors/multihal/common/SensorsSubHal.cpp. A wake lock is moved and not copied, so that it is destroyed once.
use bosch_mems_android_hal.Common.{
  ℕ, suc, Bool, true, false, List, [], ◌∷◌, ◌++◌, Option, none, some, Map, lookup, insert, is_empty,
  not, ◌||◌, ◌==◌, if◌then◌else◌,
}
use bosch_mems_android_hal.Aidl.Types.{has_flag}
use bosch_mems_android_hal.Multihal.Types.{SensorInfo, Event, Interface}
use bosch_mems_android_hal.Multihal.Handles.{set_sub_hal_index}
use bosch_mems_android_hal.Multihal.WakeRefs.{
  WakeRefs, WakeCall, increment_ref_count, decrement_ref_count,
}
use bosch_mems_android_hal.Multihal.PendingWrites.{PendingWrites, PostAnswers, post}

pub record ScopedWakelock : Type 0 where
  pub locked : Bool
  pub created_at_time_ns : ℕ

of_started : Option ℕ → ScopedWakelock
of_started none = record { locked = false; created_at_time_ns = 0 }
of_started (some t) = record { locked = true; created_at_time_ns = t }

-- createScopedWakelock and the constructor.
unfoldable pub create_scoped_wakelock :
    ℕ → Bool → WakeRefs → ScopedWakelock × WakeRefs × List WakeCall
unfolding of_started
create_scoped_wakelock now false w = (of_started none, w, [])
create_scoped_wakelock now true w =
    let (w', calls, started) = increment_ref_count now 1 w in (of_started started, w', calls)

-- The destructor.
unfoldable pub destroy_scoped_wakelock : ScopedWakelock → WakeRefs → WakeRefs × List WakeCall
destroy_scoped_wakelock l w =
    if l.locked then decrement_ref_count 1 (some l.created_at_time_ns) w else (w, [])

module _ {R : Type 0} (api : Interface R) where
  abbrev pub default_info : SensorInfo R
  default_info = record { sensor_handle = 0; sensor_type = 0; flags = 0; rest = api.default_rest }

  -- `mSensors[h]`, which makes a default entry for an unknown handle.
  unfoldable pub get_sensor_info : ℕ → Map (SensorInfo R) → SensorInfo R × Map (SensorInfo R)
  get_sensor_info h m = elim (lookup h m) [
    | none ↦ (default_info, insert h default_info m)
    | some info ↦ (info, m)
  ]

  module _ {P : Type 0} where
    with_index : ℕ → Event P → Event P
    with_index i e = record e {
      sensor_handle = set_sub_hal_index e.sensor_handle i;
      dynamic_handle =
          if e.sensor_type == api.type_dynamic_sensor_meta
          then set_sub_hal_index e.dynamic_handle i
          else e.dynamic_handle;
    }

    -- The events with the index of their sub-HAL, the number of wake up events, and mSensors.
    unfoldable pub process_events :
        ℕ → List (Event P) → Map (SensorInfo R) → List (Event P) × ℕ × Map (SensorInfo R)
    unfolding get_sensor_info with_index
    process_events i [] m = ([], 0, m)
    process_events i (e ∷ es) m =
        let e' = with_index i e in
        let (info, m1) = get_sensor_info e'.sensor_handle m in
        let (es', n, m2) = process_events i es m1 in
        (e' ∷ es', if has_flag info.flags api.wake_up then suc n else n, m2)

    -- HalProxyCallbackBase::postEvents: mSensors, the queue, the events written at once and the calls.
    unfoldable pub callback_post_events :
        ℕ
        → PostAnswers
        → List (Event P)
        → ScopedWakelock
        → Map (SensorInfo R)
        → PendingWrites (Event P)
        → Map (SensorInfo R) × PendingWrites (Event P) × List (Event P) × List WakeCall
    unfolding process_events
    callback_post_events i ans events l m q =
        if is_empty events || not q.wake_refs.threads_run
        then (m, q, [], [])
        else (let (events', n, m') = process_events i events m in
            let (q', written, calls) = post events' n l.locked ans q in (m', q', written, calls))

    -- ISensorsSubHalBase::postEvents of the sub-HAL at a place: the wake lock is created at `now`, and
    -- destroyed after the post.
    unfoldable pub sub_hal_post_events :
        ℕ
        → ℕ
        → PostAnswers
        → List (Event P)
        → Bool
        → Map (SensorInfo R)
        → PendingWrites (Event P)
        → Map (SensorInfo R) × PendingWrites (Event P) × List (Event P) × List WakeCall
    unfolding callback_post_events create_scoped_wakelock destroy_scoped_wakelock
    sub_hal_post_events i now ans events wakeup m q =
        let (l, w, acquired) = create_scoped_wakelock now wakeup q.wake_refs in
        let (m1, q1, written, calls) =
          callback_post_events i ans events l m (record q { wake_refs = w }) in
        let (w2, released) = destroy_scoped_wakelock l q1.wake_refs in
        (m1, record q1 { wake_refs = w2 }, written, acquired ++ calls ++ released)
