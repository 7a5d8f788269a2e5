-- ===== src/Sensors/Odr.antt =====
-- Smi330Imu::updateSamplingRate and setPowerMode: which data rate is chosen, and what is written.
use bosch_mems_android_hal.Common.{
  ℕ, zero, suc, ◌*◌, ◌/◌, ◌^◌, ◌≤◌, ◌<◌, ◌≡◌, refl, ap, ◌∙◌, ◌⊎◌, inl, inr, Bool, true, false, ◌∷◌,
  ◌++◌, Bytes, codes, some, none, if◌then◌else◌, arith, to_string, min, Bool-cases,
}
use bosch_mems_android_hal.Hwctl.Stream.{Sysfs, write_file}
use bosch_mems_android_hal.Sensors.Smi330Imu.{
  Index, Smi330Imu, min_sampling_rate_ns, max_sampling_rate_ns, sysfs_odr, sysfs_power_mode,
  odr_loop, odr, write_odr, set_enabled, chosen_period, update_sampling_rate, set_power_mode,
}

-- The rate that is left after k halvings.
abbrev pub halve : ℕ → ℕ → ℕ
halve zero r = r
halve (suc k) r = halve k (r / 2)

halve-le : (k r : ℕ) → halve k r ≤ r
halve-le zero r = omega arith
halve-le (suc k) r = omega (arith, halve-le k (r / 2))

odr_loop-halve :
    (k f rate p d : ℕ)
    → k < f
    → min_sampling_rate_ns ≤ halve k rate
    → halve k rate ≤ p
    → (k ≡ 0) ⊎ (p < 2 * halve k rate)
    → odr_loop f rate p d ≡ 10 ^ 9 / halve k rate
unfolding odr_loop
odr_loop-halve k zero rate p d h m l u = elim h [ ]
odr_loop-halve zero (suc f) rate p d h m l u = ground arith
odr_loop-halve (suc k) (suc f) rate p d h m l (inl e) = cc
odr_loop-halve (suc k) (suc f) rate p d h m l (inr u) =
    ground
      (arith, halve-le k (rate / 2), odr_loop-halve k f (rate / 2) p d (omega arith) m l (inr u))

-- Ten rates are not below the shortest one.
halve-max : (k : ℕ) → k < 10 → min_sampling_rate_ns ≤ halve k max_sampling_rate_ns
halve-max zero h = omega arith
halve-max (suc zero) h = omega arith
halve-max (suc (suc zero)) h = omega arith
halve-max (suc (suc (suc zero))) h = omega arith
halve-max (suc (suc (suc (suc zero)))) h = omega arith
halve-max (suc (suc (suc (suc (suc zero))))) h = omega arith
halve-max (suc (suc (suc (suc (suc (suc zero)))))) h = omega arith
halve-max (suc (suc (suc (suc (suc (suc (suc zero))))))) h = omega arith
halve-max (suc (suc (suc (suc (suc (suc (suc (suc zero)))))))) h = omega arith
halve-max (suc (suc (suc (suc (suc (suc (suc (suc (suc zero))))))))) h = omega arith
halve-max (suc (suc (suc (suc (suc (suc (suc (suc (suc (suc k)))))))))) h = absurd (omega arith)

-- The ten rates are 1280 ms and its halves down to 2.5 ms. A period between one of them and the
-- next longer one (or from the longest on) gives the data rate of the former, cut to whole Hz.
pub odr-halve :
    (k p : ℕ)
    → k < 10
    → halve k max_sampling_rate_ns ≤ p
    → (k ≡ 0) ⊎ (p < 2 * halve k max_sampling_rate_ns)
    → odr p ≡ 10 ^ 9 / halve k max_sampling_rate_ns
unfolding odr
odr-halve k p h l u = odr_loop-halve k 31 max_sampling_rate_ns p _ (omega arith) (halve-max k h) l u

odr_shortest : odr min_sampling_rate_ns ≡ 400
unfolding odr
odr_shortest = refl

odr_loop-short : (f rate p d : ℕ) → p < min_sampling_rate_ns → odr_loop f rate p d ≡ d
unfolding odr_loop
odr_loop-short zero rate p d h = refl
odr_loop-short (suc f) rate p d h = ground (arith, odr_loop-short f (rate / 2) p d)

-- A period below 2.5 ms gives the data rate of the longest period, not of the shortest: no rate of the
-- loop is at most the period, and the initial value stays.
pub odr-short :
    (p : ℕ)
    → p < min_sampling_rate_ns
    → (odr p ≡ 10 ^ 9 / max_sampling_rate_ns) × (odr p < odr min_sampling_rate_ns)
unfolding odr
odr-short p h =
    let e = odr_loop-short 31 max_sampling_rate_ns p (10 ^ 9 / max_sampling_rate_ns) h in
    (e, omega (arith, e, odr_shortest))

-- The shortest period of those that the enabled sensors ask for.
pub record IsSharedPeriod (imu : Smi330Imu) (q : ℕ) : Type 0 where
  pub within_accel : imu.accel_enabled ≡ true → q ≤ imu.accel_period_ns
  pub within_gyro : imu.gyro_enabled ≡ true → q ≤ imu.gyro_period_ns
  pub attained :
      ((imu.accel_enabled ≡ true) × (q ≡ imu.accel_period_ns))
      ⊎ ((imu.gyro_enabled ≡ true) × (q ≡ imu.gyro_period_ns))

chosen_period-cases :
    (imu : Smi330Imu)
    → ((imu.accel_enabled ≡ false) × (imu.gyro_enabled ≡ false) × (chosen_period imu ≡ none))
      ⊎ ((q : ℕ) × (chosen_period imu ≡ some q) × IsSharedPeriod imu q)
unfolding chosen_period
chosen_period-cases imu = elim (Bool-cases imu.accel_enabled) [
  | inl a ↦ elim (Bool-cases imu.gyro_enabled) [
    | inl g ↦ inr (min imu.accel_period_ns imu.gyro_period_ns, rw (a, g), ground arith)
    | inr g ↦ inr (imu.accel_period_ns, rw (a, g), ground arith)
  ]
  | inr a ↦ elim (Bool-cases imu.gyro_enabled) [
    | inl g ↦ inr (imu.gyro_period_ns, rw (a, g), ground arith)
    | inr g ↦ inl (a, g, rw (a, g))
  ]
]

-- Every write goes through.
pub record AllWritable (fs : Sysfs) : Type 0 where
  pub opens : (p : Bytes) → fs.writable p ≡ true
  pub takes : (p c : Bytes) → fs.accepts p c ≡ true

write_file-written :
    (fs : Sysfs) (path file content : Bytes)
    → AllWritable fs
    → write_file fs path file content ≡ record fs { written = (path ++ file, content) ∷ fs.written }
unfolding write_file
write_file-written fs path file content w =
    rw (w.opens (path ++ file), w.takes (path ++ file) content)

update_sampling_rate-written :
    (device : Bytes) (imu : Smi330Imu) (fs : Sysfs)
    → AllWritable fs
    → ((imu.accel_enabled ≡ false)
        × (imu.gyro_enabled ≡ false)
        × (update_sampling_rate device imu fs ≡ fs))
      ⊎ ((q : ℕ) × IsSharedPeriod imu q
          × (update_sampling_rate device imu fs
              ≡ record fs { written = (device ++ sysfs_odr, to_string (odr q)) ∷ fs.written }))
unfolding update_sampling_rate
update_sampling_rate-written device imu fs w = elim (chosen_period-cases imu) [
  | inl (a, g, e) ↦ inl (a, g, ap (λ c. write_odr c device fs) e)
  | inr (q, e, h) ↦ inr (
    q,
    h,
    ap (λ c. write_odr c device fs) e
        ∙ write_file-written fs device sysfs_odr (to_string (odr q)) w,
  )
]

set_enabled-periods :
    (idx : Index) (enable : Bool) (imu : Smi330Imu)
    → ((set_enabled idx enable imu).accel_period_ns ≡ imu.accel_period_ns)
      × ((set_enabled idx enable imu).gyro_period_ns ≡ imu.gyro_period_ns)
unfolding set_enabled
set_enabled-periods Index.accel enable imu = (refl, refl)
set_enabled-periods Index.gyro enable imu = (refl, refl)

-- Where writes go through, setPowerMode on either sensor writes, in this order: the data rate for the
-- shortest period that the sensors which are then enabled ask for, unless none is, and last the power
-- file of the sensor with 3 for on and 0 for off. The periods stay.
pub set_power_mode-written :
    (idx : Index) (enable : Bool) (device : Bytes) (imu : Smi330Imu) (fs : Sysfs)
    → AllWritable fs
    → let (imu', fs') = set_power_mode idx enable device imu fs in
      let power : Bytes × Bytes =
        (device ++ sysfs_power_mode idx, if enable then codes "3" else codes "0") in
      (imu'.accel_period_ns ≡ imu.accel_period_ns)
      × (imu'.gyro_period_ns ≡ imu.gyro_period_ns)
      × (((imu'.accel_enabled ≡ false)
            × (imu'.gyro_enabled ≡ false)
            × (fs'.written ≡ power ∷ fs.written))
          ⊎ ((q : ℕ) × IsSharedPeriod imu' q
              × (fs'.written ≡ power ∷ (device ++ sysfs_odr, to_string (odr q)) ∷ fs.written)))
unfolding set_power_mode
set_power_mode-written idx enable device imu fs w =
    let imu' = set_enabled idx enable imu in
    let (a, g) = set_enabled-periods idx enable imu in
    let last = λ (fs' : Sysfs).
      (write_file fs' device (sysfs_power_mode idx)
        (if enable then codes "3" else codes "0")).written in
    (
      a,
      g,
      elim (update_sampling_rate-written device imu' fs w) [
        | inl (a', g', e) ↦
            inl (a', g', ap last e ∙ ap (λ r. r.written) (write_file-written fs device _ _ w))
        | inr (q, h, e) ↦ inr (
          q,
          h,
          ap last e
              ∙ ap (λ r. r.written)
                  (write_file-written _ device _ _ (record { opens = w.opens; takes = w.takes })),
        )
      ],
    )
