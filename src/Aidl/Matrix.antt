-- ===== src/Aidl/Matrix.antt =====
-- Sensor::getSensorPlacement: the frame is the 3x4 matrix that its comment describes.
use bosch_mems_android_hal.Common.{
  ℕ, zero, suc, ◌+◌, ◌*◌, ◌/◌, ◌%◌, ◌<◌, ◌≤◌, ◌≡◌, refl, ap, ◌∙◌, pos, ◌&&◌, List, some, inl, inr,
  set, get_elem?, length, length-set, length-replicate, replicate, ◌==◌, lt→ltb, get_elem?-set_self,
  get_elem?-set_ne, Bool-cases, ==_iff, if◌then◌else◌, arith, FloatOps,
}
use bosch_mems_android_hal.Aidl.Types.{Axis, Orientation, Location}
use bosch_mems_android_hal.Aidl.Placement.{set_sensor_placement_data, one, minus_one, zero_float}

module _ {ℓ} {A : Type ℓ} where
  get_elem?-set :
      (xs : List A) (i j : ℕ) (v : A)
      → i < length xs
      → get_elem? (set xs i v) j ≡ (if i == j then some v else get_elem? xs j)
  get_elem?-set xs i j v h = elim (Bool-cases (i == j)) [
    | inl e ↦ rw (e, ← (==_iff i j).0 e) (get_elem?-set_self xs i v h)
    | inr e ↦ rw e (get_elem?-set_ne xs v (λ q. ground (arith, e)))
  ]

  get_elem?-replicate : (n j : ℕ) (a : A) → j < n → get_elem? (replicate n a) j ≡ some a
  get_elem?-replicate zero j a h = elim h [ ]
  get_elem?-replicate (suc n) zero a h = refl
  get_elem?-replicate (suc n) (suc j) a h = get_elem?-replicate n j a (omega arith)

-- An entry stands in a column and in a row.
place : (c m j : ℕ) → c < 4 → ((c + 4 * m) == j) ≡ (j % 4 == c && j / 4 == m)
place c m j h = elim (Bool-cases ((c + 4 * m) == j)) [
  | inl e ↦ ground (arith, e)
  | inr e ↦ ground (arith, e)
]

place_11 : (j : ℕ) → (11 == j) ≡ (j % 4 == 3 && j / 4 == 2)
place_11 j = place 3 2 j (omega arith)

place_7 : (j : ℕ) → (7 == j) ≡ (j % 4 == 3 && j / 4 == 1)
place_7 j = place 3 1 j (omega arith)

place_3 : (j : ℕ) → (3 == j) ≡ (j % 4 == 3 && j / 4 == 0)
place_3 j = place 3 0 j (omega arith)

module _ {F : Type 0} where
  pub set_data-some :
      (values : List F) (i : ℕ) (v : F)
      → i < length values
      → set_sensor_placement_data values (pos i) v ≡ some (set values i v)
  unfolding set_sensor_placement_data
  set_data-some values i v h = rw (lt→ltb i (length values) h)

module _ {F : Type 0} (ops : FloatOps F) where
  abbrev pub sign : Axis → F
  sign a = if a.negate then minus_one ops else one ops

  -- The entry of a row in a column that holds one value.
  abbrev pub column : ℕ → F → ℕ → F
  column at v row = if row == at then v else zero_float ops

  -- Row by row, four entries to a row: a column of the rotation for each axis, and the location; zero
  -- below the third row.
  abbrev pub matrix_entry : ℕ → ℕ → ℕ → Orientation → Location F → ℕ → F
  matrix_entry mx my mz o l j =
      if j % 4 == 0
      then column mx (sign o.x) (j / 4)
      else if j % 4 == 1
      then column my (sign o.y) (j / 4)
      else if j % 4 == 2
      then column mz (sign o.z) (j / 4)
      else if j / 4 == 0
      then l.x
      else if j / 4 == 1
      then l.y
      else if j / 4 == 2
      then l.z
      else zero_float ops

  unfoldable pub sets : ℕ → ℕ → ℕ → ℕ → Orientation → Location F → List F
  sets n mx my mz o l =
      let c = set (set (set (replicate n (zero_float ops)) 3 l.x) 7 l.y) 11 l.z in
      set (set (set c (0 + 4 * mx) (sign o.x)) (1 + 4 * my) (sign o.y)) (2 + 4 * mz) (sign o.z)

  entry_at :
      (mx my mz q r : ℕ) (o : Orientation) (l : Location F)
      → r < 4
      → (if r == 2 && q == mz
          then some (sign o.z)
          else if r == 1 && q == my
          then some (sign o.y)
          else if r == 0 && q == mx
          then some (sign o.x)
          else if r == 3 && q == 2
          then some l.z
          else if r == 3 && q == 1
          then some l.y
          else if r == 3 && q == 0
          then some l.x
          else some (zero_float ops))
        ≡ some (
            if r == 0
            then column mx (sign o.x) q
            else if r == 1
            then column my (sign o.y) q
            else if r == 2
            then column mz (sign o.z) q
            else if q == 0
            then l.x
            else if q == 1
            then l.y
            else if q == 2
            then l.z
            else zero_float ops)
  entry_at mx my mz q zero o l h = ground arith
  entry_at mx my mz q (suc zero) o l h = ground arith
  entry_at mx my mz q (suc (suc zero)) o l h = ground arith
  entry_at mx my mz q (suc (suc (suc zero))) o l h = ground arith
  entry_at mx my mz q (suc (suc (suc (suc r)))) o l h = absurd (omega arith)

  entry_cases :
      (mx my mz j : ℕ) (o : Orientation) (l : Location F)
      → mx < 3
      → my < 3
      → mz < 3
      → (if 2 + 4 * mz == j
          then some (sign o.z)
          else if 1 + 4 * my == j
          then some (sign o.y)
          else if 0 + 4 * mx == j
          then some (sign o.x)
          else if 11 == j
          then some l.z
          else if 7 == j
          then some l.y
          else if 3 == j
          then some l.x
          else some (zero_float ops))
        ≡ some (matrix_entry mx my mz o l j)
  entry_cases mx my mz j o l hx hy hz =
      rw
        (
          place 2 mz j (omega arith),
          place 1 my j (omega arith),
          place 0 mx j (omega arith),
          place_11 j,
          place_7 j,
          place_3 j,
        )
        (entry_at mx my mz (j / 4) (j % 4) o l (omega arith))

  pub sets-at :
      (n mx my mz j : ℕ) (o : Orientation) (l : Location F)
      → 12 ≤ n
      → mx < 3
      → my < 3
      → mz < 3
      → j < n
      → get_elem? (sets n mx my mz o l) j ≡ some (matrix_entry mx my mz o l j)
  unfolding sets
  sets-at n mx my mz j o l hn hx hy hz hj =
      let r = replicate n (zero_float ops) in
      let a = set r 3 l.x in
      let b = set a 7 l.y in
      let c = set b 11 l.z in
      let d = set c (0 + 4 * mx) (sign o.x) in
      let e = set d (1 + 4 * my) (sign o.y) in
      let nr : length r ≡ n = length-replicate n (zero_float ops) in
      let na : length a ≡ n = length-set r 3 l.x ∙ nr in
      let nb : length b ≡ n = length-set a 7 l.y ∙ na in
      let nc : length c ≡ n = length-set b 11 l.z ∙ nb in
      let nd : length d ≡ n = length-set c (0 + 4 * mx) (sign o.x) ∙ nc in
      let ne : length e ≡ n = length-set d (1 + 4 * my) (sign o.y) ∙ nd in
      get_elem?-set e (2 + 4 * mz) j (sign o.z) (omega arith)
      ∙ ap (λ w. if 2 + 4 * mz == j then some (sign o.z) else w)
          (get_elem?-set d (1 + 4 * my) j (sign o.y) (omega arith)
            ∙ ap (λ w. if 1 + 4 * my == j then some (sign o.y) else w)
                (get_elem?-set c (0 + 4 * mx) j (sign o.x) (omega arith)
                  ∙ ap (λ w. if 0 + 4 * mx == j then some (sign o.x) else w)
                      (get_elem?-set b 11 j l.z (omega arith)
                        ∙ ap (λ w. if 11 == j then some l.z else w)
                            (get_elem?-set a 7 j l.y (omega arith)
                              ∙ ap (λ w. if 7 == j then some l.y else w)
                                  (get_elem?-set r 3 j l.x (omega arith)
                                    ∙ ap (λ w. if 3 == j then some l.x else w)
                                        (get_elem?-replicate n j (zero_float ops) hj))))))
      ∙ entry_cases mx my mz j o l hx hy hz
