-- ===== src/Multihal/RoundTrip.antt =====
-- The conversions of sensors/multihal/aidl/ConvertUtils.cpp there and back.
use bosch_mems_android_hal.Common.{
  ℕ, zero, suc, ◌≤◌, ◌≡◌, refl, sym, ap, ◌∙◌, List, [], ◌∷◌, ◌++◌, some, length, take, replicate,
  arith,
}
use bosch_mems_android_hal.Multihal.AidlTypes.{
  SensorType, Payload, HidlAdditional, AdditionalInfo, AdditionalPayload, data_int32, data_float,
  other_tag, Vec3, Vec4, Uncal, HeartRate, DynamicInfo, HeadTracker, AidlEvent, Hidl, HidlEvent,
}
use bosch_mems_android_hal.Multihal.Convert.{
  Case, hidl_case, aidl_case, overwrite, head_words, head_tracker_of, words_after, to_hidl_payload,
  to_aidl_payload, convert_to_hidl_event, convert_to_aidl_event,
}

-- The two switches agree.
cases-agree : (base : ℕ) (t : SensorType) → hidl_case base t ≡ aidl_case base t
unfolding hidl_case aidl_case
cases-agree base t = ground arith

-- The payload is the member of its sensor type's case. An array of the additional info has its tag, and a
-- Data has 16 values.
pub data Fits : Case → Payload → Type 0 where
  fits_meta : (what : ℕ) → Fits Case.meta (Payload.meta what)
  fits_vec3 : (v : Vec3) → Fits Case.vec3 (Payload.vec3 v)
  fits_vec4 : (v : Vec4) → Fits Case.vec4 (Payload.vec4 v)
  fits_rotation :
      (values : List ℕ) → length values ≡ 16 → Fits Case.rotation (Payload.data16 values)
  fits_uncal : (v : Uncal) → Fits Case.uncal (Payload.uncal v)
  fits_scalar : (v : ℕ) → Fits Case.scalar (Payload.scalar v)
  fits_step_count : (n : ℕ) → Fits Case.step_count (Payload.step_count n)
  fits_heart_rate : (r : HeartRate) → Fits Case.heart_rate (Payload.heart_rate r)
  fits_pose : (values : List ℕ) → Fits Case.pose (Payload.pose6dof values)
  fits_dynamic : (d : DynamicInfo) → Fits Case.dynamic (Payload.dynamic d)
  fits_int32 :
      (t serial : ℕ) (values : List ℕ)
      → Fits Case.additional (
          Payload.additional
            (record { info_type = t; serial = serial; payload = data_int32 values }))
  fits_float :
      (t serial : ℕ) (values : List ℕ)
      → Fits Case.additional (
          Payload.additional
            (record { info_type = t; serial = serial; payload = data_float values }))
  fits_tracker : (t : HeadTracker) → Fits Case.tracker (Payload.head_tracker t)
  fits_whole : (values : List ℕ) → Fits Case.whole (Payload.data16 values)

-- Floats of an additional info come back as the integers of the same bits.
abbrev pub as_int32 : AdditionalPayload → AdditionalPayload
as_int32 (data_int32 values) = data_int32 values
as_int32 (data_float values) = data_int32 values
as_int32 other_tag = other_tag

-- What comes back: of a rotation vector the first five values, the others are 0.
abbrev pub comes_back : Case → Payload → Payload
comes_back Case.rotation (Payload.data16 values) = Payload.data16 (take 5 values ++ replicate 11 0)
comes_back Case.additional (Payload.additional a) =
    Payload.additional (record a { payload = as_int32 a.payload })
comes_back c p = p

take-overwrite : (n : ℕ) (xs ys : List ℕ) → n ≤ length xs → take n (take n xs ++ ys) ≡ take n xs
take-overwrite zero xs ys h = refl
take-overwrite (suc n) [] ys h = elim h [ ]
take-overwrite (suc n) (x ∷ xs) ys h = ap (λ l. x ∷ l) (take-overwrite n xs ys (omega arith))

abbrev of_hidl : HidlAdditional → AdditionalInfo
of_hidl a = record { info_type = a.info_type; serial = a.serial; payload = data_int32 a.words }

module _ {U : Type 0} (hidl : Hidl U) where
  abbrev Returns : Case → Payload → U → Type 0
  Returns c p u =
      (u' : U) × (to_hidl_payload hidl c p u ≡ some u')
      × (to_aidl_payload hidl c u' ≡ comes_back c p)

  payload-Returns : (c : Case) (p : Payload) → Fits c p → (u : U) → Returns c p u
  unfolding to_hidl_payload to_aidl_payload overwrite head_words head_tracker_of words_after
  payload-Returns c p (fits_meta what) u = (_, refl, ap Payload.meta (hidl.meta.read-write what u))
  payload-Returns c p (fits_vec3 v) u = (_, refl, ap Payload.vec3 (hidl.vec3.read-write v u))
  payload-Returns c p (fits_vec4 v) u = (_, refl, ap Payload.vec4 (hidl.vec4.read-write v u))
  payload-Returns c p (fits_rotation values size) u = (
    _,
    refl,
    ap (λ l. Payload.data16 (take 5 l ++ replicate 11 0)) (hidl.data16.read-write _ u)
        ∙ ap (λ l. Payload.data16 (l ++ replicate 11 0))
            (take-overwrite 5 values _ (omega (arith, size))),
  )
  payload-Returns c p (fits_uncal v) u = (_, refl, ap Payload.uncal (hidl.uncal.read-write v u))
  payload-Returns c p (fits_scalar v) u = (_, refl, ap Payload.scalar (hidl.scalar.read-write v u))
  payload-Returns c p (fits_step_count n) u =
      (_, refl, ap Payload.step_count (hidl.step_count.read-write n u))
  payload-Returns c p (fits_heart_rate r) u =
      (_, refl, ap Payload.heart_rate (hidl.heart_rate.read-write r u))
  payload-Returns c p (fits_pose values) u =
      (_, refl, ap Payload.pose6dof (hidl.pose6dof.read-write values u))
  payload-Returns c p (fits_dynamic d) u =
      (_, refl, ap Payload.dynamic (hidl.dynamic.read-write d u))
  payload-Returns c p (fits_int32 t serial values) u =
      (_, refl, ap (λ a. Payload.additional (of_hidl a)) (hidl.additional.read-write _ u))
  payload-Returns c p (fits_float t serial values) u =
      (_, refl, ap (λ a. Payload.additional (of_hidl a)) (hidl.additional.read-write _ u))
  payload-Returns c p (fits_tracker t) u =
      (_, refl, ap (λ l. Payload.head_tracker (head_tracker_of l)) (hidl.data16.read-write _ u))
  payload-Returns c p (fits_whole values) u =
      (_, refl, ap Payload.data16 (hidl.data16.read-write values u))

  -- An AIDL event whose payload is the one of its sensor type is converted to HIDL, whatever event is
  -- written to, and comes back from HIDL with its time, handle, type and payload, but for two payloads: of
  -- a rotation vector only the first five values come back, and the floats of an additional info come back
  -- as the integers of the same bits.
  pub convert-back :
      (e : AidlEvent) (h : HidlEvent U) (c : Case)
      → hidl_case hidl.device_private_base e.sensor_type ≡ some c
      → Fits c e.payload
      → (h' : HidlEvent U) × (convert_to_hidl_event hidl e h ≡ some h')
        × (convert_to_aidl_event hidl h' ≡ some (record e { payload = comes_back c e.payload }))
  unfolding convert_to_hidl_event convert_to_aidl_event
  convert-back e h c is_case fits =
      let (u', there, back) = payload-Returns c e.payload fits h.u in
      (
        record {
          timestamp = e.timestamp;
          sensor_handle = e.sensor_handle;
          sensor_type = e.sensor_type;
          u = u';
        },
        rw (is_case, there) refl,
        rw (sym (cases-agree hidl.device_private_base e.sensor_type), is_case, back) refl,
      )
