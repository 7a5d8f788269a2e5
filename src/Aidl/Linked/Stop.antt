-- ===== src/Aidl/Linked/Stop.antt =====
-- configDirectReport that stops a channel for all its sensors.
use bosch_mems_android_hal.Common.{
  ℕ, ◌≡◌, refl, sym, ap, subst, ◌∙◌, inl, inr, Bool, true, false, ◌||◌, List, [], ◌∷◌, Option, none,
  some, Map, lookup, insert, lookup-insert, any_of, ◌==◌, ==_iff, ==_self, Bool-cases, arith,
}
use bosch_mems_android_hal.Core.DirectChannel.{DirectChannel}
use bosch_mems_android_hal.Aidl.Linked.{
  entry_of, at_sensor-keeps, at_sensor-enters, Agree, Keeps, IsLinked, set_channel-IsLinked,
  IsLinked-below,
}
use bosch_mems_android_hal.Aidl.Sensor.{Sensor, stop_direct_channel}
use bosch_mems_android_hal.Aidl.Requests.{stops, channel_request}
use bosch_mems_android_hal.Aidl.DirectBuffer.{SensorsEvent}
use bosch_mems_android_hal.Aidl.Service.{SensorsHalAidl}
use bosch_mems_android_hal.Aidl.ServiceChannels.{at_sensor, rates_after, stop_each, stop_all}

any_true : (b : Bool) → (b || true) ≡ true
any_true b = ground arith

HasRate : ℕ → Map ℕ → Type 0
HasRate h rates = (r : ℕ) × (lookup h rates ≡ some r)

-- All handles of the list have a rate.
HaveRates : List ℕ → Map ℕ → Type 0
HaveRates hs rates = (j : ℕ) → any_of (λ i. i == j) hs ≡ true → HasRate j rates

rates_after-HasRate :
    {A : Type 0} (o : Option A) (h j : ℕ) (rates : Map ℕ)
    → HasRate j rates
    → HasRate j (rates_after o h rates)
unfolding rates_after HasRate
rates_after-HasRate none h j rates has = has
rates_after-HasRate (some s) h j rates (r, e) = elim (Bool-cases (h == j)) [
  | inl q ↦ (0, lookup-insert h j 0 rates ∙ rw q refl)
  | inr q ↦ (r, lookup-insert h j 0 rates ∙ rw q e)
]

rates_after-HasRate_from :
    {A : Type 0} (o : Option A) (h j : ℕ) (rates : Map ℕ)
    → HasRate h rates
    → HasRate j (rates_after o h rates)
    → HasRate j rates
unfolding rates_after HasRate
rates_after-HasRate_from none h j rates has e = e
rates_after-HasRate_from (some s) h j rates (r, here) (x, e) = elim (Bool-cases (h == j)) [
  | inl q ↦ (r, ap (λ i. lookup i rates) (sym ((==_iff h j).0 q)) ∙ here)
  | inr q ↦ (x, sym (lookup-insert h j 0 rates ∙ rw q refl) ∙ e)
]

rates_after-other :
    {A : Type 0} (o : Option A) (h j : ℕ) (rates : Map ℕ)
    → (h == j) ≡ false
    → lookup j (rates_after o h rates) ≡ lookup j rates
unfolding rates_after
rates_after-other none h j rates e = refl
rates_after-other (some s) h j rates e = lookup-insert h j 0 rates ∙ rw e refl

module _ {F : Type 0} where
  -- The entries for the channel ch are those of the rates.
  Rated : ℕ → Map ℕ → Map (Sensor F) → Type 0
  Rated ch rates m =
      (j : ℕ) (s : Sensor F)
      → lookup j m ≡ some s
      → lookup ch s.direct_channels ≡ entry_of (lookup j rates)

  stop_one-Rated :
      (ch h : ℕ) (rates : Map ℕ) (m : Map (Sensor F))
      → HasRate h rates
      → Rated ch rates m
      → Rated ch (rates_after (lookup h m) h rates) (at_sensor h (stop_direct_channel ch) m).0
  unfolding Rated HasRate rates_after channel_request
  stop_one-Rated ch h rates m (r, has) ok j t e =
      let (s, from, entry) = at_sensor-enters h j (stops ch) m t e in
      elim (Bool-cases (h == j)) [
        | inl q ↦
            let same = (==_iff h j).0 q in
            let present : lookup h m ≡ some s = ap (λ i. lookup i m) same ∙ from in
            let zeroed : lookup j (insert h 0 rates) ≡ some 0 =
              lookup-insert h j 0 rates ∙ rw q refl in
            let was : lookup ch s.direct_channels ≡ entry_of (some r) =
              ok j s from ∙ ap (λ i. entry_of (lookup i rates)) (sym same) ∙ ap entry_of has in
            entry ∙ rw (q, was, present, zeroed, ==_self ch) refl
        | inr q ↦
            entry
            ∙ rw q (ok j s from ∙ sym (ap entry_of (rates_after-other (lookup h m) h j rates q)))
      ]

  stop_each-Keeps :
      (ch : ℕ) (hs : List ℕ) (rates : Map ℕ) (m : Map (Sensor F))
      → (let (rates', m', out) = stop_each ch hs rates m in Keeps ch m m')
  unfolding stop_each Keeps channel_request
  stop_each-Keeps ch [] rates m k j t ne e = (t, e, refl)
  stop_each-Keeps ch (h ∷ hs) rates m k j t ne e =
      let m1 = (at_sensor h (stop_direct_channel ch) m).0 in
      let (s1, from1, same1) =
        stop_each-Keeps ch hs (rates_after (lookup h m) h rates) m1 k j t ne e in
      let (s, from, same) = at_sensor-keeps h j (stops ch) k m s1 ne from1 in
      (s, from, same1 ∙ same)

  -- The entries are right, and the handles that have a rate are the same.
  stop_each-Rated :
      (ch : ℕ) (hs : List ℕ) (rates : Map ℕ) (m : Map (Sensor F))
      → HaveRates hs rates
      → Rated ch rates m
      → (let (rates', m', out) = stop_each ch hs rates m in
          Rated ch rates' m'
          × ((j : ℕ) → HasRate j rates → HasRate j rates')
          × ((j : ℕ) → HasRate j rates' → HasRate j rates))
  unfolding stop_each HaveRates
  stop_each-Rated ch [] rates m have ok = (ok, (λ j h. h), (λ j h. h))
  stop_each-Rated ch (h ∷ hs) rates m have ok =
      let m1 = (at_sensor h (stop_direct_channel ch) m).0 in
      let o = lookup h m in
      let here = have h (rw (==_self h) refl) in
      let (ok', to, from) =
        stop_each-Rated ch hs (rates_after o h rates) m1
          (λ j e. rates_after-HasRate o h j rates (have j (rw e (any_true (h == j)))))
          (stop_one-Rated ch h rates m here ok) in
      (
        ok',
        (λ j x. to j (rates_after-HasRate o h j rates x)),
        (λ j x. rates_after-HasRate_from o h j rates here (from j x)),
      )

  -- The channel ch of the table is stopped for all its sensors.
  pub stop_all-IsLinked :
      (ch : ℕ) (c : DirectChannel (SensorsEvent F)) (v : SensorsHalAidl F)
      → lookup ch v.direct_channels ≡ some c
      → IsLinked v
      → IsLinked (stop_all ch c v).0
  unfolding stop_all Rated HasRate Agree HaveRates
  stop_all-IsLinked ch c v e ok =
      let cover = ok.covered ch c e in
      let (rates', m', out) = stop_each ch c.sensor_handles c.rate_ns v.sensors in
      let (agree, to, from) =
        stop_each-Rated ch c.sensor_handles c.rate_ns v.sensors cover.rated
          (subst (Agree v.sensors ch) e (ok.agree ch)) in
      set_channel-IsLinked v _ ch _ ok refl (omega arith) (IsLinked-below ch c v ok e)
        (stop_each-Keeps ch c.sensor_handles c.rate_ns v.sensors) agree
        (record {
          rated = λ h x. to h (cover.rated h x);
          listed = λ h r x. (let (r', y) = from h (r, x) in cover.listed h r' y);
        })
