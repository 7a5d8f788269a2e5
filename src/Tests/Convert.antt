-- ===== src/Tests/Convert.antt =====
-- The conversion of an event to HIDL and back, where the union keeps its members apart.
use bosch_mems_android_hal.Common.{ℕ, ◌≡◌, refl, List, ◌∷◌, replicate, some, false}
use bosch_mems_android_hal.Multihal.AidlTypes.{
  SensorType, Payload, AidlEvent, HidlAdditional, Hidl, HidlEvent, Vec3, Vec4, Uncal, HeartRate,
  DynamicInfo,
}
use bosch_mems_android_hal.Multihal.Convert.{
  Case, hidl_case, convert_to_hidl_event, convert_to_aidl_event,
}
use bosch_mems_android_hal.Multihal.RoundTrip.{fits_rotation, comes_back, convert-back}

record Members : Type 0 where
  meta : ℕ
  vec3 : Vec3
  vec4 : Vec4
  uncal : Uncal
  scalar : ℕ
  step_count : ℕ
  heart_rate : HeartRate
  pose6dof : List ℕ
  dynamic : DynamicInfo
  additional : HidlAdditional
  data16 : List ℕ

abbrev hidl : Hidl Members
hidl = record {
  meta = record {
    read = λ u. u.meta;
    write = λ a u. record u { meta = a };
    read-write = λ a u. refl;
  };
  vec3 = record {
    read = λ u. u.vec3;
    write = λ a u. record u { vec3 = a };
    read-write = λ a u. refl;
  };
  vec4 = record {
    read = λ u. u.vec4;
    write = λ a u. record u { vec4 = a };
    read-write = λ a u. refl;
  };
  uncal = record {
    read = λ u. u.uncal;
    write = λ a u. record u { uncal = a };
    read-write = λ a u. refl;
  };
  scalar = record {
    read = λ u. u.scalar;
    write = λ a u. record u { scalar = a };
    read-write = λ a u. refl;
  };
  step_count = record {
    read = λ u. u.step_count;
    write = λ a u. record u { step_count = a };
    read-write = λ a u. refl;
  };
  heart_rate = record {
    read = λ u. u.heart_rate;
    write = λ a u. record u { heart_rate = a };
    read-write = λ a u. refl;
  };
  pose6dof = record {
    read = λ u. u.pose6dof;
    write = λ a u. record u { pose6dof = a };
    read-write = λ a u. refl;
  };
  dynamic = record {
    read = λ u. u.dynamic;
    write = λ a u. record u { dynamic = a };
    read-write = λ a u. refl;
  };
  additional = record {
    read = λ u. u.additional;
    write = λ a u. record u { additional = a };
    read-write = λ a u. refl;
  };
  data16 = record {
    read = λ u. u.data16;
    write = λ a u. record u { data16 = a };
    read-write = λ a u. refl;
  };
  device_private_base = 0x10000;
}

abbrev fresh : HidlEvent Members
fresh = record {
  timestamp = 0;
  sensor_handle = 0;
  sensor_type = SensorType.meta_data;
  u = record {
    meta = 0;
    vec3 = record { x = 0; y = 0; z = 0; status = 0 };
    vec4 = record { x = 0; y = 0; z = 0; w = 0 };
    uncal = record { x = 0; y = 0; z = 0; x_bias = 0; y_bias = 0; z_bias = 0 };
    scalar = 0;
    step_count = 0;
    heart_rate = record { bpm = 0; status = 0 };
    pose6dof = replicate 15 0;
    dynamic = record { connected = false; sensor_handle = 0; uuid = replicate 16 0 };
    additional = record { info_type = 0; serial = 0; words = replicate 14 0 };
    data16 = replicate 16 7;
  };
}

-- A rotation vector whose sixth value is not 0.
abbrev rotation : AidlEvent
rotation = record {
  timestamp = 12;
  sensor_handle = 4;
  sensor_type = SensorType.rotation_vector;
  payload = Payload.data16 (1 ∷ 2 ∷ 3 ∷ 4 ∷ 5 ∷ 6 ∷ replicate 10 0);
}

its_case : hidl_case 0x10000 SensorType.rotation_vector ≡ some Case.rotation
unfolding hidl_case
its_case = refl

convert-back_example :
    (h' : HidlEvent Members) × (convert_to_hidl_event hidl rotation fresh ≡ some h')
    × (convert_to_aidl_event hidl h'
        ≡ some (record rotation { payload = comes_back Case.rotation rotation.payload }))
convert-back_example =
    convert-back hidl rotation fresh Case.rotation its_case
      (fits_rotation (1 ∷ 2 ∷ 3 ∷ 4 ∷ 5 ∷ 6 ∷ replicate 10 0) refl)
