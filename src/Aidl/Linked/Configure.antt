-- ===== src/Aidl/Linked/Configure.antt =====
-- configDirectReport for one sensor, and registerDirectChannel.
use bosch_mems_android_hal.Common.{
  ℕ, ◌≡◌, refl, sym, subst, ◌∙◌, inl, inr, Bool, true, false, ◌||◌, List, [], ◌∷◌, ◌++◌, some, Map,
  lookup, insert, lookup-insert, any_of, ◌==◌, ==_self, Bool-cases, if◌then◌else◌, arith,
}
use bosch_mems_android_hal.Core.DirectChannel.{DirectChannel, Platform, make_channel, is_valid}
use bosch_mems_android_hal.Aidl.Linked.{
  at_sensor-keeps, at_sensor-enters, Agree, Keeps, IsCovered, IsLinked, set_channel-IsLinked,
  IsLinked-below,
}
use bosch_mems_android_hal.Aidl.Sensor.{Sensor, add_direct_channel}
use bosch_mems_android_hal.Aidl.Requests.{adds, channel_request}
use bosch_mems_android_hal.Aidl.DirectBuffer.{SensorsEvent}
use bosch_mems_android_hal.Aidl.Service.{SensorsHalAidl}
use bosch_mems_android_hal.Aidl.ServiceChannels.{at_sensor, configure, register_direct_channel}

any_of-snoc :
    (h j : ℕ) (hs : List ℕ)
    → any_of (λ s. s == j) (hs ++ h ∷ []) ≡ (any_of (λ s. s == j) hs || h == j)
any_of-snoc h j [] = ground arith
any_of-snoc h j (x ∷ hs) = rw (any_of-snoc h j hs) (ground arith)

or_true : (b : Bool) → (b || true) ≡ true
or_true b = ground arith

or_false : (b : Bool) → (b || false) ≡ b
or_false b = ground arith

module _ {F : Type 0} where
  configured-IsCovered :
      (h period : ℕ) (c : DirectChannel (SensorsEvent F))
      → IsCovered c
      → IsCovered (record c {
        rate_ns = insert h period c.rate_ns;
        sensor_handles = c.sensor_handles ++ h ∷ [];
      })
  configured-IsCovered h period c ok = record { rated = rated; listed = listed }
    where
      at :
          (j : ℕ)
          → lookup j (insert h period c.rate_ns)
            ≡ (if h == j then some period else lookup j c.rate_ns)
      at j = lookup-insert h j period c.rate_ns

      rated :
          (j : ℕ)
          → any_of (λ s. s == j) (c.sensor_handles ++ h ∷ []) ≡ true
          → (r : ℕ) × (lookup j (insert h period c.rate_ns) ≡ some r)
      rated j e = elim (Bool-cases (h == j)) [
        | inl q ↦ (period, at j ∙ rw q refl)
        | inr q ↦
            let e' : any_of (λ s. s == j) c.sensor_handles ≡ true =
              sym (any_of-snoc h j c.sensor_handles ∙ rw q (or_false _)) ∙ e in
            let (r, f) = ok.rated j e' in (r, at j ∙ rw q f)
      ]

      listed :
          (j r : ℕ)
          → lookup j (insert h period c.rate_ns) ≡ some r
          → any_of (λ s. s == j) (c.sensor_handles ++ h ∷ []) ≡ true
      listed j r e = elim (Bool-cases (h == j)) [
        | inl q ↦ any_of-snoc h j c.sensor_handles ∙ rw q (or_true _)
        | inr q ↦
            any_of-snoc h j c.sensor_handles ∙ rw (ok.listed j r (sym (at j ∙ rw q refl) ∙ e)) refl
      ]

  add-Keeps :
      (h ch period : ℕ) (m : Map (Sensor F))
      → Keeps ch m (at_sensor h (add_direct_channel ch period) m).0
  unfolding Keeps channel_request
  add-Keeps h ch period m k j t ne e = at_sensor-keeps h j (adds ch period) k m t ne e

  add-Agree :
      (h ch period : ℕ) (m : Map (Sensor F)) (c : DirectChannel (SensorsEvent F))
      → Agree m ch (some c)
      → Agree (at_sensor h (add_direct_channel ch period) m).0 ch (
          some (record c {
            rate_ns = insert h period c.rate_ns;
            sensor_handles = c.sensor_handles ++ h ∷ [];
          }))
  unfolding Agree channel_request
  add-Agree h ch period m c ok j t e =
      let (s, from, entry) = at_sensor-enters h j (adds ch period) m t e in
      let at = lookup-insert h j period c.rate_ns in
      elim (Bool-cases (h == j)) [
        | inl q ↦
            let here : lookup j (insert h period c.rate_ns) ≡ some period = at ∙ rw q refl in
            entry ∙ rw (q, ==_self ch, here) refl
        | inr q ↦
            let there : lookup j (insert h period c.rate_ns) ≡ lookup j c.rate_ns =
              at ∙ rw q refl in
            entry ∙ rw (q, there) (ok j s from)
      ]

  -- configure on a channel of the table.
  pub configure-IsLinked :
      (h ch period : ℕ) (c : DirectChannel (SensorsEvent F)) (v : SensorsHalAidl F)
      → lookup ch v.direct_channels ≡ some c
      → IsLinked v
      → IsLinked (configure h ch period c v).0
  unfolding configure
  configure-IsLinked h ch period c v e ok =
      set_channel-IsLinked v _ ch _ ok refl (omega arith) (IsLinked-below ch c v ok e)
        (add-Keeps h ch period v.sensors)
        (add-Agree h ch period v.sensors c (subst (Agree v.sensors ch) e (ok.agree ch)))
        (configured-IsCovered h period c (ok.covered ch c e))

make_channel-empty :
    {E : Type 0} (pf : Platform E) (fd bytes : ℕ)
    → let c = make_channel pf fd bytes in (c.sensor_handles ≡ []) × (c.rate_ns ≡ [])
unfolding make_channel
make_channel-empty pf fd bytes = elim (Bool-cases (pf.ashmem_valid fd)) [
  | inr e ↦ rw e (refl, refl)
  | inl e ↦ elim (Bool-cases (pf.region_size fd == bytes)) [
    | inr f ↦ rw (e, f) (refl, refl)
    | inl f ↦ elim (Bool-cases (pf.mmap fd bytes == 0)) [
      | inr g ↦ rw (e, f, g) (refl, refl)
      | inl g ↦ rw (e, f, g) (refl, refl)
    ]
  ]
]

module _ {F : Type 0} where
  -- A new channel, under the next handle.
  pub register-IsLinked :
      (pf : Platform (SensorsEvent F)) (is_ashmem : Bool) (fd bytes : ℕ) (v : SensorsHalAidl F)
      → IsLinked v
      → (let (status, handle, v') = register_direct_channel pf is_ashmem fd bytes v in IsLinked v')
  unfolding register_direct_channel Keeps Agree
  register-IsLinked pf false fd bytes v ok = ok
  register-IsLinked pf true fd bytes v ok =
      let c = make_channel pf fd bytes in
      let (no_handles, no_rates) = make_channel-empty pf fd bytes in
      let ch = v.next_channel_handle in
      let missing = ok.fresh ch (omega arith) in
      elim (Bool-cases (is_valid c)) [
        | inl q ↦ rw q (
            set_channel-IsLinked v _ ch c ok refl (omega arith) (omega arith)
              (λ k j t ne e. (t, e, refl))
              (λ j s e. ok.agree ch j s e ∙ rw missing (rw no_rates refl))
              (record {
                rated = λ h e. (let no : any_of (λ s. s == h) [] ≡ true = rw no_handles at e in cc);
                listed = λ h r e. (let no : lookup {V = ℕ} h [] ≡ some r = rw no_rates at e in cc);
              }))
        | inr q ↦ rw q ok
      ]
