-- ===== src/Aidl/Rotation.antt =====
-- Sensor::getSensorPlacement: the whole frame, for an orientation that the HAL reports and for one that it
-- applies itself, and where a write is out of range.
use bosch_mems_android_hal.Common.{
  ℕ, ◌+◌, ◌*◌, ◌<◌, ◌≤◌, ◌≡◌, ◌∙◌, pos, true, false, List, none, some, set, get_elem?, length,
  length-set, length-replicate, replicate, le→ltb, arith, FloatOps,
}
use bosch_mems_android_hal.Aidl.Types.{Orientation, Location}
use bosch_mems_android_hal.Aidl.Placement.{
  ◌>>=◌, set_sensor_placement_data, set_axis, set_rotation, placement_values, zero_float,
}
use bosch_mems_android_hal.Aidl.Matrix.{matrix_entry, sign, sets, sets-at, set_data-some}

-- An orientation that maps each axis to its own row.
abbrev pub aligned : Orientation
aligned = record {
  rotate = true;
  x = record { map_to = pos 0; negate = false };
  y = record { map_to = pos 1; negate = false };
  z = record { map_to = pos 2; negate = false };
}

module _ {F : Type 0} (ops : FloatOps F) where
  length-sets :
      (n mx my mz : ℕ) (o : Orientation) (l : Location F) → length (sets ops n mx my mz o l) ≡ n
  unfolding sets
  length-sets n mx my mz o l =
      length-set _ (2 + 4 * mz) _
      ∙ length-set _ (1 + 4 * my) _
      ∙ length-set _ (0 + 4 * mx) _
      ∙ length-set _ 11 _
      ∙ length-set _ 7 _
      ∙ length-set _ 3 _
      ∙ length-replicate n (zero_float ops)

  -- The three writes of the location, which lead to the rotation.
  placement_values-location :
      (n : ℕ) (o : Orientation) (l : Location F)
      → 12 ≤ n
      → placement_values ops n l o
        ≡ set_rotation ops o (set (set (set (replicate n (zero_float ops)) 3 l.x) 7 l.y) 11 l.z)
  unfolding placement_values
  placement_values-location n o l h =
      let r = replicate n (zero_float ops) in
      let nr : length r ≡ n = length-replicate n (zero_float ops) in
      let na : length (set r 3 l.x) ≡ n = length-set r 3 l.x ∙ nr in
      let nb : length (set (set r 3 l.x) 7 l.y) ≡ n = length-set (set r 3 l.x) 7 l.y ∙ na in
      rw (
        set_data-some r 3 l.x (omega arith),
        set_data-some (set r 3 l.x) 7 l.y (omega arith),
        set_data-some (set (set r 3 l.x) 7 l.y) 11 l.z (omega arith),
      )

  -- Three writes of a rotation in range.
  three_writes :
      (n mx my mz : ℕ) (c : List F) (a b d : F)
      → length c ≡ n
      → 4 * mx < n
      → 1 + 4 * my < n
      → 2 + 4 * mz < n
      → (set_sensor_placement_data c (pos (0 + 4 * mx)) a >>= λ v.
          set_sensor_placement_data v (pos (1 + 4 * my)) b >>= λ w.
          set_sensor_placement_data w (pos (2 + 4 * mz)) d)
        ≡ some (set (set (set c (0 + 4 * mx) a) (1 + 4 * my) b) (2 + 4 * mz) d)
  three_writes n mx my mz c a b d nc hx hy hz =
      let na : length (set c (0 + 4 * mx) a) ≡ n = length-set c (0 + 4 * mx) a ∙ nc in
      let nb : length (set (set c (0 + 4 * mx) a) (1 + 4 * my) b) ≡ n =
        length-set (set c (0 + 4 * mx) a) (1 + 4 * my) b ∙ na in
      rw (
        set_data-some c (0 + 4 * mx) a (omega arith),
        set_data-some (set c (0 + 4 * mx) a) (1 + 4 * my) b (omega arith),
        set_data-some (set (set c (0 + 4 * mx) a) (1 + 4 * my) b) (2 + 4 * mz) d (omega arith),
      )

  length-location :
      (n : ℕ) (l : Location F)
      → length (set (set (set (replicate n (zero_float ops)) 3 l.x) 7 l.y) 11 l.z) ≡ n
  length-location n l =
      length-set _ 11 _ ∙ length-set _ 7 _ ∙ length-set _ 3 _ ∙ length-replicate n (zero_float ops)

  -- Where the frame has room for twelve floats, the HAL does not rotate the data itself (`rotate` is false), and each
  -- axis of the orientation is mapped to one of the three rows, the frame is filled without an undefined write, and entry j is that of the 3x4
  -- matrix in row major order: the sign of an axis in the axis' column and the row it is mapped to, the
  -- location in the last column, zero elsewhere.
  pub placement_values-matrix :
      (n mx my mz : ℕ) (o : Orientation) (l : Location F)
      → 12 ≤ n
      → o.rotate ≡ false
      → (o.x.map_to ≡ pos mx) × (mx < 3)
      → (o.y.map_to ≡ pos my) × (my < 3)
      → (o.z.map_to ≡ pos mz) × (mz < 3)
      → (v : List F) × (placement_values ops n l o ≡ some v)
        × (length v ≡ n)
        × ((j : ℕ) → j < n → get_elem? v j ≡ some (matrix_entry ops mx my mz o l j))
  unfolding set_rotation set_axis sets
  placement_values-matrix n mx my mz o l h r (ex, hx) (ey, hy) (ez, hz) = (
    sets ops n mx my mz o l,
    placement_values-location n o l h
        ∙ rw (r, ex, ey, ez)
            (three_writes n mx my mz _ _ _ _ (length-location n l) (omega arith) (omega arith)
              (omega arith)),
    length-sets n mx my mz o l,
    λ j hj. sets-at ops n mx my mz j o l h hx hy hz hj,
  )

  -- Where the HAL rotates the data itself, the frame is that of the identity rotation.
  pub placement_values-aligned :
      (n : ℕ) (o : Orientation) (l : Location F)
      → 12 ≤ n
      → o.rotate ≡ true
      → (v : List F) × (placement_values ops n l o ≡ some v)
        × ((j : ℕ) → j < n → get_elem? v j ≡ some (matrix_entry ops 0 1 2 aligned l j))
  unfolding set_rotation sets
  placement_values-aligned n o l h r = (
    sets ops n 0 1 2 aligned l,
    placement_values-location n o l h
        ∙ rw r (
            three_writes n 0 1 2 _ _ _ _ (length-location n l) (omega arith) (omega arith)
              (omega arith)),
    λ j hj. sets-at ops n 0 1 2 j aligned l h (omega arith) (omega arith) (omega arith) hj,
  )

  set_data-none :
      (values : List F) (i : ℕ) (v : F)
      → length values ≤ i
      → set_sensor_placement_data values (pos i) v ≡ none
  unfolding set_sensor_placement_data
  set_data-none values i v h = rw (le→ltb i (length values) h)

  -- Where the HAL does not rotate the data itself: the last axis is mapped behind the end of the frame, and the other
  -- two inside it; the write is made out of range.
  placement_values-undefined :
      (n mx my mz : ℕ) (o : Orientation) (l : Location F)
      → 12 ≤ n
      → o.rotate ≡ false
      → (o.x.map_to ≡ pos mx) × (4 * mx < n)
      → (o.y.map_to ≡ pos my) × (1 + 4 * my < n)
      → (o.z.map_to ≡ pos mz) × (n ≤ 2 + 4 * mz)
      → placement_values ops n l o ≡ none
  unfolding set_rotation set_axis
  placement_values-undefined n mx my mz o l h r (ex, hx) (ey, hy) (ez, hz) =
      let c = set (set (set (replicate n (zero_float ops)) 3 l.x) 7 l.y) 11 l.z in
      let nc : length c ≡ n = length-location n l in
      let sx = sign ops o.x in
      let sy = sign ops o.y in
      let na : length (set c (0 + 4 * mx) sx) ≡ n = length-set c (0 + 4 * mx) sx ∙ nc in
      let nb : length (set (set c (0 + 4 * mx) sx) (1 + 4 * my) sy) ≡ n =
        length-set (set c (0 + 4 * mx) sx) (1 + 4 * my) sy ∙ na in
      placement_values-location n o l h
      ∙ rw (
        r,
        ex,
        ey,
        ez,
        set_data-some c (0 + 4 * mx) sx (omega arith),
        set_data-some (set c (0 + 4 * mx) sx) (1 + 4 * my) sy (omega arith),
        set_data-none (set (set c (0 + 4 * mx) sx) (1 + 4 * my) sy) (2 + 4 * mz) (sign ops o.z)
            (omega arith),
      )
