-- ===== src/Aidl/Linked.antt =====
-- The direct channels of SensorsHalAidl and those of its sensors (sensors/aidl/SensorsHalAidl.cpp): the two
-- tables say the same. The invariant, and what keeps it; the children are about the calls.
mod Configure
mod Remove
mod Stop
pub mod Requests
use bosch_mems_android_hal.Common.{
  ℕ, ◌+◌, ◌≤◌, ◌<◌, ◌≡◌, ◌≢◌, refl, sym, ap, subst, ◌∙◌, ◌⊎◌, inl, inr, Bool, true, false, not,
  ◌||◌, List, [], ◌∷◌, ◌++◌, Option, none, some, Map, lookup, insert, erase, lookup-insert,
  lookup-erase, any_of, ◌==◌, ==_iff, ==_self, Bool-cases, Option-cases, ltb, ltb→lt, ltb→le,
  if◌then◌else◌, arith,
}
use bosch_mems_android_hal.Core.DirectChannel.{DirectChannel, Platform, make_channel, is_valid}
use bosch_mems_android_hal.Aidl.Sensor.{Sensor, Channel, Effect, add_direct_channel}
use bosch_mems_android_hal.Aidl.Requests.{
  ChannelRequest, adds, stops, removes, entry_after, channel_request, channel_request-lem,
}
use bosch_mems_android_hal.Aidl.DirectBuffer.{SensorsEvent}
use bosch_mems_android_hal.Aidl.Service.{SensorsHalAidl}
use bosch_mems_android_hal.Aidl.ServiceChannels.{at_sensor, configure, register_direct_channel}

abbrev pub entry_of : Option ℕ → Option Channel
entry_of none = none
entry_of (some r) = some (record { enabled = not (r == 0); sampling_period_ns = r })

-- The entry that a sensor has for a channel of the service.
abbrev pub expected : {E : Type 0} → Option (DirectChannel E) → ℕ → Option Channel
expected none h = none
expected (some c) h = entry_of (lookup h c.rate_ns)

pub ==_ne : (a b : ℕ) → a ≢ b → (a == b) ≡ false
==_ne a b h = ground arith

abbrev pub channel_of : ChannelRequest → ℕ
channel_of (adds h p) = h
channel_of (stops h) = h
channel_of (removes h) = h

entry_after-other :
    (r : ChannelRequest) (j : ℕ) (o : Option Channel) → channel_of r ≢ j → entry_after r j o ≡ o
entry_after-other (adds h p) j o ne = rw (==_ne h j ne) refl
entry_after-other (stops h) j none ne = refl
entry_after-other (stops h) j (some c) ne = rw (==_ne h j ne) refl
entry_after-other (removes h) j o ne = rw (==_ne h j ne) refl

module _ {F : Type 0} where
  at_sensor-missing :
      (h : ℕ) (f : Sensor F → Sensor F × List (Effect F)) (m : Map (Sensor F))
      → lookup h m ≡ none
      → (at_sensor h f m).0 ≡ m
  unfolding at_sensor
  at_sensor-missing h f m e = rw (at_sensor, e) refl

  at_sensor-present :
      (h : ℕ) (f : Sensor F → Sensor F × List (Effect F)) (m : Map (Sensor F)) (s : Sensor F)
      → lookup h m ≡ some s
      → (at_sensor h f m).0 ≡ insert h (f s).0 m
  unfolding at_sensor
  at_sensor-present h f m s e = rw (at_sensor, e) refl

  -- Where a sensor comes from that stands in the table after a request to the sensor h.
  pub at_sensor-from :
      (h j : ℕ) (f : Sensor F → Sensor F × List (Effect F)) (m : Map (Sensor F)) (t : Sensor F)
      → lookup j (at_sensor h f m).0 ≡ some t
      → (s : Sensor F) × (lookup j m ≡ some s) × (((h ≡ j) × (t ≡ (f s).0)) ⊎ ((h ≢ j) × (t ≡ s)))
  at_sensor-from h j f m t e = elim (Option-cases (lookup h m)) [
    | inl q ↦
        let e' : lookup j m ≡ some t = sym (ap (lookup j) (at_sensor-missing h f m q)) ∙ e in
        (t, e', inr ((λ k. cc), refl))
    | inr (s, q) ↦
        let e1 : lookup j (insert h (f s).0 m) ≡ some t =
          sym (ap (lookup j) (at_sensor-present h f m s q)) ∙ e in
        let e2 = sym (lookup-insert h j (f s).0 m) ∙ e1 in
        elim (Bool-cases (h == j)) [
          | inl k ↦
              let same = (==_iff h j).0 k in
              let e3 : some (f s).0 ≡ some t = rw k at e2 in
              (s, ap (λ i. lookup i m) (sym same) ∙ q, inl (same, cc))
          | inr k ↦
              let e3 : lookup j m ≡ some t = rw k at e2 in
              (t, e3, inr ((λ same. let k' = (==_iff h j).1 same in cc), refl))
        ]
  ]

  -- A request for the channel k leaves the entries of the other channels as they are.
  pub at_sensor-keeps :
      (h j : ℕ) (r : ChannelRequest) (ch : ℕ) (m : Map (Sensor F)) (t : Sensor F)
      → channel_of r ≢ ch
      → lookup j (at_sensor h (channel_request r) m).0 ≡ some t
      → (s : Sensor F) × (lookup j m ≡ some s)
        × (lookup ch t.direct_channels ≡ lookup ch s.direct_channels)
  at_sensor-keeps h j r ch m t ne e =
      let (s, q, how) = at_sensor-from h j (channel_request r) m t e in
      elim how [
        | inl (same, is) ↦ (
          s,
          q,
          ap (λ (u : Sensor F). lookup ch u.direct_channels) is
              ∙ (channel_request-lem r s).0 ch
              ∙ entry_after-other r ch (lookup ch s.direct_channels) ne,
        )
        | inr (other, is) ↦ (s, q, ap (λ (u : Sensor F). lookup ch u.direct_channels) is)
      ]

  -- And the entry of the channel k itself in the sensor h.
  pub at_sensor-enters :
      (h j : ℕ) (r : ChannelRequest) (m : Map (Sensor F)) (t : Sensor F)
      → lookup j (at_sensor h (channel_request r) m).0 ≡ some t
      → let k = channel_of r in
        (s : Sensor F) × (lookup j m ≡ some s)
        × (lookup k t.direct_channels ≡ (
            if h == j
            then entry_after r k (lookup k s.direct_channels)
            else lookup k s.direct_channels))
  at_sensor-enters h j r m t e =
      let k = channel_of r in
      let (s, q, how) = at_sensor-from h j (channel_request r) m t e in
      elim how [
        | inl (same, is) ↦ (
          s,
          q,
          rw ((==_iff h j).1 same) (
              ap (λ (u : Sensor F). lookup k u.direct_channels) is ∙ (channel_request-lem r s).0 k),
        )
        | inr (other, is) ↦
            (s, q, rw (==_ne h j other) (ap (λ (u : Sensor F). lookup k u.direct_channels) is))
      ]

  -- The sensors' entries for the channel ch are those that the service's table asks for.
  unfoldable pub Agree : Map (Sensor F) → ℕ → Option (DirectChannel (SensorsEvent F)) → Type 0
  Agree m ch o =
      (h : ℕ) (s : Sensor F) → lookup h m ≡ some s → lookup ch s.direct_channels ≡ expected o h

-- A channel has a rate for exactly the handles of its list.
pub record IsCovered {E : Type 0} (c : DirectChannel E) : Type 0 where
  pub rated :
      (h : ℕ)
      → any_of (λ s. s == h) c.sensor_handles ≡ true
      → (r : ℕ) × (lookup h c.rate_ns ≡ some r)
  pub listed :
      (h r : ℕ) → lookup h c.rate_ns ≡ some r → any_of (λ s. s == h) c.sensor_handles ≡ true

-- The invariant of the service.
pub record IsLinked {F : Type 0} (v : SensorsHalAidl F) : Type 0 where
  pub agree : (ch : ℕ) → Agree v.sensors ch (lookup ch v.direct_channels)
  pub covered :
      (ch : ℕ) (c : DirectChannel (SensorsEvent F))
      → lookup ch v.direct_channels ≡ some c
      → IsCovered c
  pub fresh : (ch : ℕ) → v.next_channel_handle ≤ ch → lookup ch v.direct_channels ≡ none

module _ {F : Type 0} where
  -- No entry of a channel other than k has changed.
  pub Keeps : ℕ → Map (Sensor F) → Map (Sensor F) → Type 0
  Keeps k m m' =
      (ch j : ℕ) (t : Sensor F)
      → k ≢ ch
      → lookup j m' ≡ some t
      → (s : Sensor F) × (lookup j m ≡ some s)
        × (lookup ch t.direct_channels ≡ lookup ch s.direct_channels)

  -- One channel of the table is replaced, and the sensors agree on it.
  pub set_channel-IsLinked :
      (v v' : SensorsHalAidl F) (k : ℕ) (c : DirectChannel (SensorsEvent F))
      → IsLinked v
      → v'.direct_channels ≡ insert k c v.direct_channels
      → v.next_channel_handle ≤ v'.next_channel_handle
      → k < v'.next_channel_handle
      → Keeps k v.sensors v'.sensors
      → Agree v'.sensors k (some c)
      → IsCovered c
      → IsLinked v'
  unfolding Agree Keeps
  set_channel-IsLinked v v' k c ok table grows below keeps agrees covers = record {
    agree = agree;
    covered = covered;
    fresh = fresh;
  }
    where
      at :
          (ch : ℕ)
          → lookup ch v'.direct_channels ≡ (if k == ch then some c else lookup ch v.direct_channels)
      at ch = ap (lookup ch) table ∙ lookup-insert k ch c v.direct_channels

      agree :
          (ch j : ℕ) (t : Sensor F)
          → lookup j v'.sensors ≡ some t
          → lookup ch t.direct_channels ≡ expected (lookup ch v'.direct_channels) j
      agree ch j t e = elim (Bool-cases (k == ch)) [
        | inl q ↦
            let same = (==_iff k ch).0 q in
            let here : lookup ch v'.direct_channels ≡ some c = at ch ∙ rw q refl in
            rw here
              (subst (λ i. lookup i t.direct_channels ≡ expected (some c) j) same (agrees j t e))
        | inr q ↦
            let ne : k ≢ ch = λ same. (let q' = (==_iff k ch).1 same in cc) in
            let (s, from, entry) = keeps ch j t ne e in
            let there : lookup ch v'.direct_channels ≡ lookup ch v.direct_channels =
              at ch ∙ rw q refl in
            rw there (entry ∙ ok.agree ch j s from)
      ]

      covered :
          (ch : ℕ) (d : DirectChannel (SensorsEvent F))
          → lookup ch v'.direct_channels ≡ some d
          → IsCovered d
      covered ch d e = elim (Bool-cases (k == ch)) [
        | inl q ↦
            let here : some c ≡ some d = sym (at ch ∙ rw q refl) ∙ e in
            let same : c ≡ d = cc in subst IsCovered same covers
        | inr q ↦ ok.covered ch d (sym (at ch ∙ rw q refl) ∙ e)
      ]

      fresh : (ch : ℕ) → v'.next_channel_handle ≤ ch → lookup ch v'.direct_channels ≡ none
      fresh ch h =
          at ch
          ∙ rw (==_ne k ch (λ same. absurd (let x : ch < ch = omega arith in omega arith)))
              (ok.fresh ch (omega arith))

  pub IsLinked-below :
      (ch : ℕ) (c : DirectChannel (SensorsEvent F)) (v : SensorsHalAidl F)
      → IsLinked v
      → lookup ch v.direct_channels ≡ some c
      → ch < v.next_channel_handle
  IsLinked-below ch c v ok e = elim (Bool-cases (ltb ch v.next_channel_handle)) [
    | inl q ↦ ltb→lt ch v.next_channel_handle q
    | inr q ↦ let missing = ok.fresh ch (ltb→le ch v.next_channel_handle q) in cc
  ]
