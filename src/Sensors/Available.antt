-- ===== src/Sensors/Available.antt =====
-- SensorList::getAvailableSensors: which sensors it offers.
use bosch_mems_android_hal.Common.{
  ℕ, zero, suc, ◌+◌, ◌≤◌, ◌<◌, ◌≡◌, refl, subst, ◌⊎◌, inl, inr, Bool, true, false, List, [], ◌∷◌,
  ◌++◌, Option, none, some, Bytes, length, get_elem?, ◌==◌, arith, All, Bool-cases, ==_iff, ◌↔◌,
  ◌||◌, Option-cases,
}
use bosch_mems_android_hal.Hwctl.Stream.{Sysfs}
use bosch_mems_android_hal.Hwctl.Available.{is_sensor_available}
use bosch_mems_android_hal.Core.SensorCore.{set_device, set_available}
use bosch_mems_android_hal.Sensors.SensorList.{
  Sensor, CompositeSensor, SensorList, Pointer, is_available_at, dependent_sensors,
  probe_composites, probe_sensors, get_available_sensors, pointer_if, found,
}

abbrev pub offers_sensor : ℕ → List Pointer → Bool
offers_sensor k [] = false
offers_sensor k (Pointer.sensor i ∷ ps) = i == k || offers_sensor k ps
offers_sensor k (Pointer.composite j ∷ ps) = offers_sensor k ps

abbrev pub offers_composite : ℕ → List Pointer → Bool
offers_composite k [] = false
offers_composite k (Pointer.sensor i ∷ ps) = offers_composite k ps
offers_composite k (Pointer.composite j ∷ ps) = j == k || offers_composite k ps

or_false : (b : Bool) → (b || false) ≡ b
or_false true = refl
or_false false = refl

offers_composite-append :
    (k : ℕ) (ps qs : List Pointer)
    → offers_composite k (ps ++ qs) ≡ (offers_composite k ps || offers_composite k qs)
offers_composite-append k [] qs = refl
offers_composite-append k (Pointer.sensor i ∷ ps) qs = offers_composite-append k ps qs
offers_composite-append k (Pointer.composite j ∷ ps) qs =
    ground (arith, offers_composite-append k ps qs)

offers_sensor-append :
    (k : ℕ) (ps qs : List Pointer)
    → offers_sensor k (ps ++ qs) ≡ (offers_sensor k ps || offers_sensor k qs)
offers_sensor-append k [] qs = refl
offers_sensor-append k (Pointer.composite i ∷ ps) qs = offers_sensor-append k ps qs
offers_sensor-append k (Pointer.sensor j ∷ ps) qs = ground (arith, offers_sensor-append k ps qs)

pointer_if-other :
    (d : Option Bytes) (i k : ℕ) (ps : List Pointer)
    → i < k
    → offers_sensor k (pointer_if d i ++ ps) ≡ offers_sensor k ps
unfolding pointer_if
pointer_if-other none i k ps h = refl
pointer_if-other (some d) i k ps h = ground arith

module _ {F : Type 0} (ss : List (Sensor F)) where
  abbrev pub AllAvailable : List ℕ → Type 0
  AllAvailable = All (λ d. is_available_at ss d ≡ true)

  dependent_sensors-le :
      (n : ℕ) (ds : List ℕ)
      → (dependent_sensors ss n ds ≤ n + length ds)
        × (dependent_sensors ss n ds ≡ n + length ds → AllAvailable ds)
        × (AllAvailable ds → dependent_sensors ss n ds ≡ n + length ds)
  unfolding dependent_sensors
  dependent_sensors-le n [] = (omega arith, λ e. tt, λ a. omega arith)
  dependent_sensors-le n (d ∷ ds) = elim (Bool-cases (is_available_at ss d)) [
    | inl e ↦
        let (le, to, from) = dependent_sensors-le (n + 1) ds in
        rw e (omega arith, λ q. (refl, to (omega arith)), λ a. omega (arith, from a.1))
    | inr e ↦
        let (le, to, from) = dependent_sensors-le n ds in
        rw e (omega arith, λ q. absurd (omega arith), λ a. cc)
  ]

  dependent_sensors-all :
      (ds : List ℕ) → ((dependent_sensors ss 0 ds == length ds) ≡ true) ↔ AllAvailable ds
  dependent_sensors-all ds =
      let (le, to, from) = dependent_sensors-le 0 ds in
      (λ h. to (omega (arith, (==_iff _ _).0 h)), λ a. (==_iff _ _).1 (omega (arith, from a)))

  offers_composite-lt :
      (i k : ℕ) (cs : List (CompositeSensor F))
      → k < i
      → offers_composite k (probe_composites ss i cs) ≡ false
  unfolding probe_composites
  offers_composite-lt i k [] h = refl
  offers_composite-lt i k (c ∷ cs) h = ground (arith, offers_composite-lt (suc i) k cs)

  offers_composite-at :
      (i j : ℕ) (cs : List (CompositeSensor F)) (c : CompositeSensor F)
      → get_elem? cs j ≡ some c
      → offers_composite (i + j) (probe_composites ss i cs)
        ≡ (dependent_sensors ss 0 c.dependency_list == length c.dependency_list)
  unfolding probe_composites
  offers_composite-at i j [] c h = cc
  offers_composite-at i zero (x ∷ cs) c h =
      let e : x ≡ c = cc in rw e (ground (arith, offers_composite-lt (suc i) (i + 0) cs))
  offers_composite-at i (suc j) (x ∷ cs) c h =
      let ih = offers_composite-at (suc i) j cs c h in
      let e : suc i + j ≡ i + suc j = omega arith in let ih' = rw e at ih in ground (arith, ih')

  composites-offer_no_sensor :
      (i k : ℕ) (cs : List (CompositeSensor F)) → offers_sensor k (probe_composites ss i cs) ≡ false
  unfolding probe_composites
  composites-offer_no_sensor i k [] = refl
  composites-offer_no_sensor i k (c ∷ cs) = ground (arith, composites-offer_no_sensor (suc i) k cs)

module _ {F : Type 0} (fs : Sysfs) (entries : Option (List Bytes)) where
  abbrev pub probe : Sensor F → Option Bytes
  probe s = is_sensor_available fs entries s.core.sensor_data.driver_name

  sensors-offer_no_composite :
      (i k : ℕ) (ss : List (Sensor F))
      → offers_composite k (probe_sensors fs entries i ss).1 ≡ false
  unfolding probe_sensors
  sensors-offer_no_composite i k [] = refl
  sensors-offer_no_composite i k (s ∷ ss) = elim (Option-cases (probe s)) [
    | inl e ↦ rw (e, pointer_if) (sensors-offer_no_composite (suc i) k ss)
    | inr (d, e) ↦ rw (e, pointer_if) (sensors-offer_no_composite (suc i) k ss)
  ]

  offers_sensor-lt :
      (i k : ℕ) (ss : List (Sensor F))
      → k < i
      → offers_sensor k (probe_sensors fs entries i ss).1 ≡ false
  unfolding probe_sensors
  offers_sensor-lt i k [] h = refl
  offers_sensor-lt i k (s ∷ ss) h = elim (Option-cases (probe s)) [
    | inl e ↦ rw (e, pointer_if) (offers_sensor-lt (suc i) k ss (omega arith))
    | inr (d, e) ↦ rw (e, pointer_if) (ground (arith, offers_sensor-lt (suc i) k ss))
  ]

  -- One sensor after the first loop, by whether its device answers.
  abbrev pub Probed : ℕ → Sensor F → List (Sensor F) × List Pointer → ℕ → Type 0
  Probed k s (ss, ps) j =
      ((probe s ≡ none) × (offers_sensor k ps ≡ false) × (get_elem? ss j ≡ some s))
      ⊎ ((d : Bytes) × (probe s ≡ some d)
          × (offers_sensor k ps ≡ true)
          × (get_elem? ss j
              ≡ some (record s { core = set_device fs d (set_available true s.core) })))

  probe_sensors-head :
      (i k : ℕ) (x : Sensor F) (ss : List (Sensor F))
      → k ≡ i
      → Probed k x (probe_sensors fs entries i (x ∷ ss)) 0
  unfolding probe_sensors
  probe_sensors-head i k x ss e = elim (Option-cases (probe x)) [
    | inl n ↦
        inl (n, rw (n, pointer_if) (offers_sensor-lt (suc i) k ss (omega arith)), rw (n, found))
    | inr (d, n) ↦ inr (d, n, rw (n, pointer_if) (ground arith), rw (n, found))
  ]

  probe_sensors-at :
      (i j : ℕ) (ss : List (Sensor F)) (s : Sensor F)
      → get_elem? ss j ≡ some s
      → Probed (i + j) s (probe_sensors fs entries i ss) j
  unfolding probe_sensors
  probe_sensors-at i j [] s h = cc
  probe_sensors-at i zero (x ∷ ss) s h =
      let e : x ≡ s = cc in
      subst (λ y. Probed (i + 0) y (probe_sensors fs entries i (x ∷ ss)) 0) e
        (probe_sensors-head i (i + 0) x ss (omega arith))
  probe_sensors-at i (suc j) (x ∷ ss) s h =
      let e : suc i + j ≡ i + suc j = omega arith in
      let other =
        pointer_if-other (probe x) i (i + suc j) (probe_sensors fs entries (suc i) ss).1
          (omega arith) in
      rw other (rw e at (probe_sensors-at (suc i) j ss s h))

  -- For any list of sensors and any answers of the file system. Every sensor whose driver answers is
  -- offered, is marked available and is given the device that answered; every other one is not
  -- offered and stays as it is. A composite sensor is offered exactly if all the sensors that it depends
  -- on are then available.
  pub get_available_sensors-offers :
      (l : SensorList F)
      → let (l', ps) = get_available_sensors fs entries l in
        ((j : ℕ) (s : Sensor F) → get_elem? l.sensors j ≡ some s → Probed j s (l'.sensors, ps) j)
        × ((j : ℕ) (c : CompositeSensor F)
            → get_elem? l.composite_sensors j ≡ some c
            → (offers_composite j ps ≡ true) ↔ AllAvailable l'.sensors c.dependency_list)
  unfolding get_available_sensors
  get_available_sensors-offers l =
      let ps = (probe_sensors fs entries 0 l.sensors).1 in
      let ss = (probe_sensors fs entries 0 l.sensors).0 in
      let cs = l.composite_sensors in
      (
        (λ j s h.
            let e : 0 + j ≡ j = omega arith in
            rw
              (
                offers_sensor-append j ps (probe_composites ss 0 cs),
                composites-offer_no_sensor ss 0 j cs,
                or_false,
              )
              (rw e at (probe_sensors-at 0 j l.sensors s h))),
        (λ j c h.
            let e : 0 + j ≡ j = omega arith in
            let at = rw e at (offers_composite-at ss 0 j cs c h) in
            rw
              (
                offers_composite-append j ps (probe_composites ss 0 cs),
                sensors-offer_no_composite 0 j l.sensors,
                at,
              )
              (dependent_sensors-all ss c.dependency_list)),
      )
