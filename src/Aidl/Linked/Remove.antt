-- ===== src/Aidl/Linked/Remove.antt =====
-- unregisterDirectChannel.
use bosch_mems_android_hal.Common.{
  ℕ, ◌≤◌, ◌≡◌, ◌≢◌, refl, sym, ap, subst, ◌∙◌, inl, inr, Bool, true, false, ◌||◌, List, [], ◌∷◌,
  Option, none, some, Map, lookup, erase, lookup-erase, any_of, ◌==◌, ==_iff, ==_self, Bool-cases,
  Option-cases, if◌then◌else◌, arith,
}
use bosch_mems_android_hal.Core.DirectChannel.{DirectChannel}
use bosch_mems_android_hal.Aidl.Linked.{
  entry_of, expected, at_sensor-keeps, at_sensor-enters, Agree, Keeps, IsCovered, IsLinked,
}
use bosch_mems_android_hal.Aidl.Sensor.{Sensor, Channel, remove_direct_channel}
use bosch_mems_android_hal.Aidl.Requests.{removes, channel_request}
use bosch_mems_android_hal.Aidl.DirectBuffer.{SensorsEvent}
use bosch_mems_android_hal.Aidl.Service.{SensorsHalAidl}
use bosch_mems_android_hal.Aidl.ServiceChannels.{at_sensor, remove_each, unregister_direct_channel}

module _ {F : Type 0} where
  remove_each-Keeps :
      (ch : ℕ) (hs : List ℕ) (m : Map (Sensor F)) → Keeps ch m (remove_each ch hs m).0
  unfolding remove_each Keeps channel_request
  remove_each-Keeps ch [] m k j t ne e = (t, e, refl)
  remove_each-Keeps ch (h ∷ hs) m k j t ne e =
      let m1 = (at_sensor h (remove_direct_channel ch) m).0 in
      let (s1, from1, same1) = remove_each-Keeps ch hs m1 k j t ne e in
      let (s, from, same) = at_sensor-keeps h j (removes ch) k m s1 ne from1 in
      (s, from, same1 ∙ same)

  remove_each-removes :
      (ch : ℕ) (hs : List ℕ) (m : Map (Sensor F)) (j : ℕ) (t : Sensor F)
      → lookup j (remove_each ch hs m).0 ≡ some t
      → (s : Sensor F) × (lookup j m ≡ some s)
        × (lookup ch t.direct_channels
            ≡ (if any_of (λ i. i == j) hs then none else lookup ch s.direct_channels))
  unfolding remove_each channel_request
  remove_each-removes ch [] m j t e = (t, e, refl)
  remove_each-removes ch (h ∷ hs) m j t e =
      let m1 = (at_sensor h (remove_direct_channel ch) m).0 in
      let (s1, from1, entry1) = remove_each-removes ch hs m1 j t e in
      let (s, from, entry) = at_sensor-enters h j (removes ch) m s1 from1 in
      (
        s,
        from,
        entry1
            ∙ join (h == j) (any_of (λ i. i == j) hs) (lookup ch s1.direct_channels)
                (lookup ch s.direct_channels) (entry ∙ rw (==_self ch) refl),
      )
    where
      join :
          (b c : Bool) (o1 o : Option Channel)
          → o1 ≡ (if b then none else o)
          → (if c then none else o1) ≡ (if b || c then none else o)
      join true true o1 o e = refl
      join true false o1 o e = e
      join false true o1 o e = refl
      join false false o1 o e = e

  -- The channel ch is taken out of the table, and the sensors have no entry for it.
  pub erase_channel-IsLinked :
      (v v' : SensorsHalAidl F) (ch : ℕ)
      → IsLinked v
      → v'.direct_channels ≡ erase ch v.direct_channels
      → v.next_channel_handle ≡ v'.next_channel_handle
      → Keeps ch v.sensors v'.sensors
      → Agree v'.sensors ch none
      → IsLinked v'
  unfolding Agree Keeps
  erase_channel-IsLinked v v' ch ok table next keeps agrees = record {
    agree = agree;
    covered = covered;
    fresh = fresh;
  }
    where
      at :
          (k : ℕ)
          → lookup k v'.direct_channels ≡ (if ch == k then none else lookup k v.direct_channels)
      at k = ap (lookup k) table ∙ lookup-erase ch k v.direct_channels

      agree :
          (k j : ℕ) (t : Sensor F)
          → lookup j v'.sensors ≡ some t
          → lookup k t.direct_channels ≡ expected (lookup k v'.direct_channels) j
      agree k j t e = elim (Bool-cases (ch == k)) [
        | inl q ↦
            let same = (==_iff ch k).0 q in
            let here : lookup k v'.direct_channels ≡ none = at k ∙ rw q refl in
            rw here (subst (λ i. lookup i t.direct_channels ≡ none) same (agrees j t e))
        | inr q ↦
            let ne : ch ≢ k = λ same. (let q' = (==_iff ch k).1 same in cc) in
            let (s, from, entry) = keeps k j t ne e in
            let there : lookup k v'.direct_channels ≡ lookup k v.direct_channels =
              at k ∙ rw q refl in
            rw there (entry ∙ ok.agree k j s from)
      ]

      covered :
          (k : ℕ) (d : DirectChannel (SensorsEvent F))
          → lookup k v'.direct_channels ≡ some d
          → IsCovered d
      covered k d e = elim (Bool-cases (ch == k)) [
        | inl q ↦ let no : none ≡ some d = sym (at k ∙ rw q refl) ∙ e in cc
        | inr q ↦ ok.covered k d (sym (at k ∙ rw q refl) ∙ e)
      ]

      fresh : (k : ℕ) → v'.next_channel_handle ≤ k → lookup k v'.direct_channels ≡ none
      fresh k h = elim (Bool-cases (ch == k)) [
        | inl q ↦ at k ∙ rw q refl
        | inr q ↦ at k ∙ rw q (ok.fresh k (omega arith))
      ]

  -- The entries of a channel that was removed from all sensors of its list.
  remove_each-Agree :
      (ch : ℕ) (c : DirectChannel (SensorsEvent F)) (m : Map (Sensor F))
      → IsCovered c
      → Agree m ch (some c)
      → Agree (remove_each ch c.sensor_handles m).0 ch none
  unfolding Agree
  remove_each-Agree ch c m cover ok j t e =
      let (s, from, entry) = remove_each-removes ch c.sensor_handles m j t e in
      elim (Bool-cases (any_of (λ i. i == j) c.sensor_handles)) [
        | inl q ↦ entry ∙ rw q refl
        | inr q ↦
            entry
            ∙ rw q (
                ok j s from ∙ elim (Option-cases (lookup j c.rate_ns)) [
                  | inl n ↦ ap entry_of n
                  | inr (r, is) ↦ (let yes = cover.listed j r is in cc)
                ])
      ]

  pub unregister-IsLinked :
      (ch : ℕ) (v : SensorsHalAidl F) → IsLinked v → IsLinked (unregister_direct_channel ch v).0
  unfolding unregister_direct_channel Keeps
  unregister-IsLinked ch v ok = elim (Option-cases (lookup ch v.direct_channels)) [
    | inl q ↦
        rw (unregister_direct_channel, q)
          (erase_channel-IsLinked v _ ch ok refl refl (λ k j t ne e. (t, e, refl))
            (subst (Agree v.sensors ch) q (ok.agree ch)))
    | inr (c, q) ↦
        rw (unregister_direct_channel, q)
          (erase_channel-IsLinked v _ ch ok refl refl
            (remove_each-Keeps ch c.sensor_handles v.sensors)
            (remove_each-Agree ch c v.sensors (ok.covered ch c q)
              (subst (Agree v.sensors ch) q (ok.agree ch))))
  ]
