-- ===== src/Subhal/SameRun.antt =====
-- The Sensor of the sub-HAL and that of the AIDL service: reports, activate, flush and the run loop.
use bosch_mems_android_hal.Common.{
  ℕ, suc, ◌≡◌, refl, sym, ap, ◌∙◌, inl, inr, Bool, true, false, not, ◌&&◌, ◌||◌, List, [], ◌∷◌,
  ◌++◌, Option, none, some, FloatOps, Option-cases, Bool-cases, bool_ne, if◌then◌else◌, leb,
}
use bosch_mems_android_hal.Aidl.Types.{
  Interface, SensorInfo, Event, AdditionalInfo, FrameType, AStatus, has_flag,
}
use bosch_mems_android_hal.Aidl.Sensor as AidlSensor
use bosch_mems_android_hal.Aidl.Placement as AidlPlacement
use bosch_mems_android_hal.Aidl.Reports as AidlReports
use bosch_mems_android_hal.Aidl.SensorRun as AidlRun
use bosch_mems_android_hal.Subhal.Reports.{
  frame_events, report_frames, send_additional_info_report, switch, activate, flush, bare_frame,
}
use bosch_mems_android_hal.Subhal.Run.{run_round, wait_time}
use bosch_mems_android_hal.Subhal.Placement.{get_sensor_temperature}
use bosch_mems_android_hal.Multihal.Types.{is_ok}
use bosch_mems_android_hal.Subhal.Same.{forget}
use bosch_mems_android_hal.Subhal.SameReports.{placement-IsPlaced}

some_pair {ℓ κ} :
    {A : Type ℓ} {B : Type κ} (a c : A) (b d : B)
    → ◌≡◌ {A = Option (A × B)} (some (a, b)) (some (c, d))
    → (a ≡ c) × (b ≡ d)
some_pair a c b d e = (cc, cc)

some_triple :
    {A B C : Type 0} (a d : A) (b e : B) (c f : C)
    → ◌≡◌ {A = Option (A × B × C)} (some (a, b, c)) (some (d, e, f))
    → (a ≡ d) × (b ≡ e) × (c ≡ f)
some_triple a d b e c f h = (cc, cc, cc)

abbrev pub is_fine : AStatus → Bool
is_fine AStatus.ok = true
is_fine _ = false

module _ {F : Type 0} (ops : FloatOps F) (api : Interface) where
  frame_events-same :
      (info : SensorInfo F) (time : ℕ → ℕ) (i : ℕ) (frames : List (AdditionalInfo F))
      → frame_events api info time i frames ≡ AidlReports.frame_events ops api info time i frames
  unfolding frame_events AidlReports.frame_events
  frame_events-same info time i [] = refl
  frame_events-same info time i (f ∷ fs) = rw (frame_events-same info time (suc i) fs) refl

  temperature-same :
      (t : Option F) (frames : List (AdditionalInfo F))
      → (get_sensor_temperature ops api.frame_size t frames).1
        ≡ (AidlReports.get_sensor_temperature ops api t frames).1
  unfolding get_sensor_temperature AidlReports.get_sensor_temperature
  temperature-same none frames = refl
  temperature-same (some t) frames = refl

  abbrev IsReported : AidlReports.Answers F → AidlSensor.Sensor F → Type 0
  IsReported ans t =
      (t' : AidlSensor.Sensor F) (effects : List (AidlSensor.Effect F))
      → AidlReports.send_additional_info_report ops api ans t ≡ some (t', effects)
      → (forget t' ≡ forget t) × (effects ≡ send_additional_info_report ops api ans (forget t))

  report-IsReported : (ans : AidlReports.Answers F) (t : AidlSensor.Sensor F) → IsReported ans t
  unfolding AidlReports.send_additional_info_report send_additional_info_report report_frames
  report-IsReported ans t t' effects e =
      elim (Option-cases (
        AidlPlacement.get_sensor_placement ops api.frame_size t.config t.additional_info_values
          (bare_frame FrameType.begin ∷ []))) [
            | inl undefined ↦ let e' = rw undefined at e in cc
            | inr ((status, v, frames), placed) ↦
                let (sensor, done) = some_pair _ _ _ _ (rw placed at e) in
                (
                  sym (ap forget sensor),
                  sym done
                      ∙ rw
                          (
                            placement-IsPlaced ops api.frame_size t.config t.additional_info_values
                                _ _ _ _ placed,
                            temperature-same ans.temperature frames,
                            frame_events-same t.sensor_info ans.time 0 _,
                          )
                          refl,
                )
          ]

  then_report-same :
      (ans : AidlReports.Answers F) (s t' : AidlSensor.Sensor F)
      (before effects : List (AidlSensor.Effect F))
      → AidlReports.then_report ops api ans true s before ≡ some (t', effects)
      → (forget t' ≡ forget s)
        × (effects ≡ before ++ send_additional_info_report ops api ans (forget s))
  unfolding AidlReports.then_report
  then_report-same ans s t' before effects e =
      elim (Option-cases (AidlReports.send_additional_info_report ops api ans s)) [
        | inl undefined ↦ let e' = rw undefined at e in cc
        | inr ((s', more), sent) ↦
            let (sensor, done) = some_pair _ _ _ _ (rw sent at e) in
            let (kept, same) = report-IsReported ans s s' more sent in
            (ap forget (sym sensor) ∙ kept, sym done ∙ ap (λ l. before ++ l) same)
      ]

  switch-same :
      (ans : AidlReports.Answers F) (enable : Bool) (t t' : AidlSensor.Sensor F)
      (effects : List (AidlSensor.Effect F))
      → AidlReports.then_report ops api ans enable
          (record t {
            is_enabled = enable;
            next_sample_time_ns = if enable then 0 else AidlSensor.int64_max;
          })
          (AidlSensor.hal_activate enable ∷ [])
        ≡ some (t', effects)
      → switch ops api ans enable (forget t) ≡ (forget t', effects)
  unfolding switch AidlReports.then_report
  switch-same ans false t t' effects e =
      let (sensor, done) = some_pair _ _ _ _ e in λ i. (forget (sensor i), done i)
  switch-same ans true t t' effects e =
      let (kept, same) = then_report-same ans _ t' (AidlSensor.hal_activate true ∷ []) effects e in
      λ i. (sym kept i, sym same i)

  -- activate, where the AIDL sensor's is defined.
  pub activate-same :
      (ans : AidlReports.Answers F) (enable : Bool) (t t' : AidlSensor.Sensor F)
      (effects : List (AidlSensor.Effect F))
      → AidlReports.activate ops api ans enable t ≡ some (t', effects)
      → activate ops api ans enable (forget t) ≡ (forget t', effects)
  unfolding AidlReports.activate activate
  activate-same ans enable t t' effects e = elim (Bool-cases (bool_ne t.is_enabled enable)) [
    | inr same ↦
        let (sensor, done) = some_pair _ _ _ _ (rw same at e) in
        rw same (λ i. (forget (sensor i), done i))
    | inl differs ↦ rw differs (switch-same ans enable t t' effects (rw differs at e))
  ]

  -- flush, for an event whose time is 0.
  pub flush-same :
      (ans : AidlReports.Answers F) (t t' : AidlSensor.Sensor F) (status : AStatus)
      (effects : List (AidlSensor.Effect F))
      → AidlReports.flush ops api ans t ≡ some (status, t', effects)
      → (forget t' ≡ forget t)
        × ((flush ops api 0 ans (forget t)).1 ≡ effects)
        × (is_ok (flush ops api 0 ans (forget t)).0 ≡ is_fine status)
  unfolding AidlReports.flush AidlReports.flush_event flush AidlReports.is_wake_up_sensor
  flush-same ans t t' status effects e =
      elim (Bool-cases (not t.is_enabled || has_flag t.sensor_info.flags api.one_shot_mode)) [
        | inl fails ↦
            let (state, sensor, done) = some_triple _ _ _ _ _ _ (rw fails at e) in
            rw fails (ap forget (sym sensor), done, ap is_fine state)
        | inr works ↦
            let before =
              AidlSensor.post_events (AidlReports.flush_event ops api t.sensor_info ∷ [])
                (AidlReports.is_wake_up_sensor ops api t.sensor_info)
              ∷ [] in
            elim (Option-cases (AidlReports.then_report ops api ans true t before)) [
              | inl undefined ↦ let e' = rw (works, undefined) at e in cc
              | inr ((s', more), reported) ↦
                  let (state, sensor, done) = some_triple _ _ _ _ _ _ (rw (works, reported) at e) in
                  let (kept, same) = then_report-same ans t s' before more reported in
                  rw works (ap forget (sym sensor) ∙ kept, sym same ∙ done, ap is_fine state)
            ]
      ]

module _ {F : Type 0} (wake_up : Bool) where
  pub run_round-same :
      (now later : ℕ) (events : List (Event F)) (t : AidlSensor.Sensor F)
      → let (t', effects, wait) = AidlRun.run_round wake_up now later events t in
        run_round wake_up now later events (forget t) ≡ (forget t', effects, wait)
  unfolding run_round wait_time AidlRun.run_round AidlRun.wait_time
  run_round-same now later events t =
      elim (Bool-cases (t.direct_channel_enabled && leb t.next_direct_channel_ns now)) [
        | inl d ↦ rw d (elim (Bool-cases (t.is_enabled && leb t.next_sample_time_ns now)) [
          | inl e ↦ rw e refl
          | inr e ↦ rw e refl
        ])
        | inr d ↦ rw d (elim (Bool-cases (t.is_enabled && leb t.next_sample_time_ns now)) [
          | inl e ↦ rw e refl
          | inr e ↦ rw e refl
        ])
      ]
