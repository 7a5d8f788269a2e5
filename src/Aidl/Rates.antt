-- ===== src/Aidl/Rates.antt =====
-- What a Sensor asks of its ISensorHal over a history of requests: the period that the hardware was told
-- last, and whether it is powered.
use bosch_mems_android_hal.Common.{
  ℕ, ◌*◌, ◌≤◌, ◌≡◌, ◌++◌, ◌&&◌, not, values, ==_iff, refl, subst, inl, inr, ℤ, Bool, true, false,
  List, [], ◌∷◌, Option, none, some, ltb, ltb→lt, ltb→le, ◌==◌, Bool-cases, if◌then◌else◌, arith,
}
use bosch_mems_android_hal.Aidl.Sensor.{
  Sensor, Effect, hal_activate, hal_batch, post_events, write_to_direct_buffer, int64_max,
  clamp_period, batch, direct_rate, update_direct_channel, Channel, make_sensor,
}
use bosch_mems_android_hal.Aidl.Requests.{
  ChannelRequest, channel_request, table_after, channel_request-eq, channel_request-lem,
}
use bosch_mems_android_hal.Aidl.Channels.{IsConsistent}
use bosch_mems_android_hal.Aidl.Types.{SensorInfo, Configuration}
use mathlib.Core.List.{Memᴰ}

-- batch or one of the requests of a direct channel.
pub data RateRequest : Type 0 where
  batches : ℤ → ℤ → RateRequest
  channels : ChannelRequest → RateRequest

AtMost : Option ℕ → ℕ → Type 0
AtMost none n = Unit
AtMost (some p) n = p ≤ n

AtMost-trans : (told : Option ℕ) {n m : ℕ} → AtMost told n → n ≤ m → AtMost told m
unfolding AtMost
AtMost-trans none h k = h
AtMost-trans (some p) h k = omega arith

-- updateDirectChannel tells a rate that is new and below the sampling period.
AtMost-told :
    (told : Option ℕ) (old rate short : ℕ)
    → AtMost told short
    → AtMost told old
    → let told' = if not (old == rate) && ltb rate short then some rate else told in
      AtMost told' short × AtMost told' rate
unfolding AtMost
AtMost-told told old rate short h k = elim (Bool-cases (old == rate)) [
  | inl e ↦ rw e (h, AtMost-trans told k (let q = (==_iff old rate).0 e in omega arith))
  | inr e ↦ elim (Bool-cases (ltb rate short)) [
    | inl f ↦ let q = ltb→lt rate short f in rw (e, f) (omega arith, omega arith)
    | inr f ↦ rw (e, f) (h, AtMost-trans told h (ltb→le rate short f))
  ]
]

module _ {F : Type 0} where
  -- The period of the last `batch` of the ISensorHal; `none` before the first.
  unfoldable pub told_after : Option ℕ → List (Effect F) → Option ℕ
  told_after told [] = told
  told_after told (hal_batch p latency ∷ es) = told_after (some p) es
  told_after told (hal_activate on ∷ es) = told_after told es
  told_after told (post_events events wake ∷ es) = told_after told es
  told_after told (write_to_direct_buffer events rate ∷ es) = told_after told es

  unfoldable pub powered_after : Bool → List (Effect F) → Bool
  powered_after on [] = on
  powered_after on (hal_batch p latency ∷ es) = powered_after on es
  powered_after on (hal_activate b ∷ es) = powered_after b es
  powered_after on (post_events events wake ∷ es) = powered_after on es
  powered_after on (write_to_direct_buffer events rate ∷ es) = powered_after on es

  rate_request : RateRequest → Sensor F → Sensor F × List (Effect F)
  unfolding channel_request
  rate_request (batches period latency) s = batch period latency s
  rate_request (channels r) s = channel_request r s

  unfoldable pub rate_requests : List RateRequest → Sensor F → Option ℕ → Sensor F × Option ℕ
  unfolding rate_request
  rate_requests [] s told = (s, told)
  rate_requests (r ∷ rs) s told =
      let (s', effects) = rate_request r s in rate_requests rs s' (told_after told effects)

  -- The hardware was never told a period, or one that is no longer than both.
  IsFastEnough : Sensor F → Option ℕ → Type 0
  IsFastEnough s none = Unit
  IsFastEnough s (some p) = (p ≤ s.sampling_period_ns) × (p ≤ s.direct_channel_rate_ns)

  IsFastEnough-of :
      (told : Option ℕ) (s : Sensor F)
      → AtMost told s.sampling_period_ns
      → AtMost told s.direct_channel_rate_ns
      → IsFastEnough s told
  unfolding AtMost IsFastEnough
  IsFastEnough-of none s h k = h
  IsFastEnough-of (some p) s h k = (h, k)

  of_IsFastEnough :
      (told : Option ℕ) (s : Sensor F)
      → IsFastEnough s told
      → AtMost told s.sampling_period_ns × AtMost told s.direct_channel_rate_ns
  unfolding AtMost IsFastEnough
  of_IsFastEnough none s h = (h, h)
  of_IsFastEnough (some p) s h = h

  batch-IsFastEnough :
      (period latency : ℤ) (s : Sensor F) (told : Option ℕ)
      → IsFastEnough s told
      → IsFastEnough (batch period latency s).0 (told_after told (batch period latency s).1)
  unfolding batch told_after AtMost
  batch-IsFastEnough period latency s told h =
      let (short, direct) = of_IsFastEnough told s h in
      let p =
        clamp_period (s.sensor_info.min_delay_us * 1000) (s.sensor_info.max_delay_us * 1000)
          period in
      let s' : Sensor F = record s { sampling_period_ns = p } in
      elim (Bool-cases (ltb p s.direct_channel_rate_ns)) [
        | inl e ↦
            let k = ltb→lt _ _ e in rw e (IsFastEnough-of (some p) s' (omega arith) (omega arith))
        | inr e ↦ rw e (
            IsFastEnough-of told s' (AtMost-trans told direct (ltb→le p s.direct_channel_rate_ns e))
              direct)
      ]

-- The effects of update_direct_channel: a batch or none, then an activation or none.
told_after-update :
    (F : Type 0) (told : Option ℕ) (b c on : Bool) (r : ℕ)
    → told_after {F = F} told
        ((if b then hal_batch r (ℤ.pos 0) ∷ [] else []) ++ (if c then hal_activate on ∷ [] else []))
      ≡ (if b then some r else told)
unfolding told_after
told_after-update F told true true on r = refl
told_after-update F told true false on r = refl
told_after-update F told false true on r = refl
told_after-update F told false false on r = refl

module _ {F : Type 0} where
  update-IsFastEnough :
      (s : Sensor F) (told : Option ℕ)
      → IsFastEnough s told
      → IsFastEnough (update_direct_channel s).0 (told_after told (update_direct_channel s).1)
  unfolding update_direct_channel
  update-IsFastEnough s told h =
      let (short, direct) = of_IsFastEnough told s h in
      let rate = direct_rate int64_max (values s.direct_channels) in
      let (short', direct') =
        AtMost-told told s.direct_channel_rate_ns rate s.sampling_period_ns short direct in
      rw
        (told_after-update F told
          (not (s.direct_channel_rate_ns == rate) && ltb rate s.sampling_period_ns) _ _ rate)
        (IsFastEnough-of _ _ short' direct')

  request-IsFastEnough :
      (r : RateRequest) (s : Sensor F) (told : Option ℕ)
      → IsFastEnough s told
      → IsFastEnough (rate_request r s).0 (told_after told (rate_request r s).1)
  unfolding rate_request
  request-IsFastEnough (batches period latency) s told h =
      batch-IsFastEnough period latency s told h
  request-IsFastEnough (channels r) s told h = rw (channel_request-eq r s) (
      update-IsFastEnough (record s { direct_channels = table_after r s.direct_channels }) told
        (let (a, b) = of_IsFastEnough told s h in IsFastEnough-of told _ a b))

  rate_requests-IsFastEnough :
      (rs : List RateRequest) (s : Sensor F) (told : Option ℕ)
      → IsFastEnough s told
      → IsFastEnough (rate_requests rs s told).0 (rate_requests rs s told).1
  unfolding rate_requests
  rate_requests-IsFastEnough [] s told h = h
  rate_requests-IsFastEnough (r ∷ rs) s told h =
      rate_requests-IsFastEnough rs _ _ (request-IsFastEnough r s told h)

  request-IsConsistent :
      (r : RateRequest) (s : Sensor F) → IsConsistent s → IsConsistent (rate_request r s).0
  unfolding rate_request batch
  request-IsConsistent (batches period latency) s h = record {
    shortest = h.shortest;
    enabled_if = h.enabled_if;
    enabled_by = h.enabled_by;
  }
  request-IsConsistent (channels r) s h = (channel_request-lem r s).1

  rate_requests-IsConsistent :
      (rs : List RateRequest) (s : Sensor F) (told : Option ℕ)
      → IsConsistent s
      → IsConsistent (rate_requests rs s told).0
  unfolding rate_requests
  rate_requests-IsConsistent [] s told h = h
  rate_requests-IsConsistent (r ∷ rs) s told h =
      rate_requests-IsConsistent rs _ _ (request-IsConsistent r s h)

  make_sensor-IsConsistent :
      (fs : List F) (info : SensorInfo F) (config : Option (List (Configuration F)))
      → IsConsistent (make_sensor fs info config)
  unfolding make_sensor
  make_sensor-IsConsistent fs info config = record {
    shortest = record {
      at_most_best = omega arith;
      at_most_each = λ c h e. elim h [ ];
      attained = inl refl;
    };
    enabled_if = λ c h e. elim h [ ];
    enabled_by = λ h. cc;
  }

  -- After any sequence of batch, addDirectChannel, stopDirectChannel and removeDirectChannel on a new
  -- sensor: if the hardware was told a period at all, then the last one is no longer than the sampling
  -- period of the sensor and no longer than the period of any direct channel that is enabled.
  pub rate_requests-told :
      (fs : List F) (info : SensorInfo F) (config : Option (List (Configuration F)))
      (rs : List RateRequest) (p : ℕ)
      → let (s, told) = rate_requests rs (make_sensor fs info config) none in
        told ≡ some p
        → (p ≤ s.sampling_period_ns)
          × ((c : Channel)
              → Memᴰ c (values s.direct_channels)
              → c.enabled ≡ true
              → p ≤ c.sampling_period_ns)
  unfolding IsFastEnough AtMost
  rate_requests-told fs info config rs p e =
      let s0 = make_sensor fs info config in
      let fast =
        subst (IsFastEnough (rate_requests rs s0 none).0) e
          (rate_requests-IsFastEnough rs s0 none _) in
      let ok =
        (rate_requests-IsConsistent rs s0 none
          (make_sensor-IsConsistent fs info config)).shortest in
      (fast.0, λ c h on. omega (arith, fast.1, ok.at_most_each c h on))
