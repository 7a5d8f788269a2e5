-- ===== src/Hwctl/Axes.antt =====
-- RawSysfsHandler::read (sensors/hwctl/FileHandler.cpp) on files that hold integers.
use bosch_mems_android_hal.Common.{
  ℕ, ◌^◌, ◌<◌, ◌≡◌, refl, sym, ap, ◌∙◌, Bool, true, false, List, [], ◌∷◌, ◌++◌, lt→ltb, le→leb,
  le→ltb, if◌then◌else◌, ℤ, pos, neg, FloatOps, arith,
}
use mathlib.Core.List.{append-nil, append_assoc}
use bosch_mems_android_hal.Hwctl.Stream.{Sysfs, Status, success, failure, ReadHandler}
use bosch_mems_android_hal.Hwctl.Stream
use bosch_mems_android_hal.Hwctl.Number.{is_valid_integer, signed_value, value, out_of_range, stoi}
use bosch_mems_android_hal.Hwctl.RawSysfs.{read, returns, throws}
use bosch_mems_android_hal.Hwctl.Decimals.{decimal_line, decimal_line-stoi}

-- A file, and the integer in it: its sign and its magnitude.
pub record Axis : Type 0 where
  pub handler : ReadHandler
  pub minus : Bool
  pub magnitude : ℕ

-- The file is open and holds the integer, which is an int.
pub record IsReadable (fs : Sysfs) (a : Axis) : Type 0 where
  pub opened : a.handler.is_open ≡ true
  pub holds : fs.content a.handler.file_name ≡ decimal_line a.minus a.magnitude
  pub fits : a.magnitude < (if a.minus then 2147483649 else 2147483648)

unfoldable pub AllReadable : Sysfs → List Axis → Type 0
AllReadable fs [] = Unit
AllReadable fs (a ∷ axes) = IsReadable fs a × AllReadable fs axes

abbrev pub integer : Axis → ℤ
integer a = if a.minus then neg a.magnitude else pos a.magnitude

unfoldable pub handlers : List Axis → List ReadHandler
handlers [] = []
handlers (a ∷ axes) = a.handler ∷ handlers axes

signed_value-int :
    (minus : Bool) (n : ℕ)
    → n < (if minus then 2147483649 else 2147483648)
    → signed_value minus n ≡ value (if minus then neg n else pos n)
signed_value-int true n h = rw (le→leb n 2147483648 (omega arith)) refl
signed_value-int false n h = rw (lt→ltb n 2147483648 h) refl

signed_value-none :
    (minus : Bool) (n : ℕ)
    → (if minus then 2147483648 else 2147483647) < n
    → signed_value minus n ≡ out_of_range
signed_value-none true n h = ground arith
signed_value-none false n h = rw (le→ltb n 2147483648 (omega arith)) refl

twenty_digits :
    (minus : Bool) (n : ℕ) → n < (if minus then 2147483649 else 2147483648) → n < 10 ^ 20
twenty_digits true n h = omega arith
twenty_digits false n h = omega arith

-- What a readable file gives.
readable-value :
    (fs : Sysfs) (a : Axis)
    → IsReadable fs a
    → (is_valid_integer (decimal_line a.minus a.magnitude) ≡ true)
      × (stoi (decimal_line a.minus a.magnitude) ≡ value (integer a))
readable-value fs a ok =
    let (valid, reads) =
      decimal_line-stoi a.minus a.magnitude (twenty_digits a.minus a.magnitude ok.fits) in
    (valid, reads ∙ signed_value-int a.minus a.magnitude ok.fits)

module _ {F : Type 0} (ops : FloatOps F) where
  unfoldable pub scaled : F → List Axis → List F
  scaled resolution [] = []
  scaled resolution (a ∷ axes) =
      ops.mul (ops.of_int (integer a)) resolution ∷ scaled resolution axes

  -- Where every file is open and holds a decimal int and an end of line, `read` succeeds and appends, in the
  -- order of the files, each integer times the resolution.
  pub read-scaled :
      (fs : Sysfs) (resolution : F) (axes : List Axis) (results : List F)
      → AllReadable fs axes
      → read ops fs resolution (handlers axes) results
        ≡ (returns success, results ++ scaled resolution axes)
  unfolding read handlers scaled Stream.read AllReadable
  read-scaled fs resolution [] results h = ap (λ r. (returns success, r)) (sym (append-nil results))
  read-scaled fs resolution (a ∷ axes) results (ok, h) =
      let (valid, number) = readable-value fs a ok in
      rw (ok.opened, ok.holds, valid, number)
        (read-scaled fs resolution axes (results ++ _ ∷ []) h
          ∙ ap (λ r. (returns success, r)) (append_assoc results (_ ∷ []) (scaled resolution axes)))

  -- The files are read in their order: after any that are open and hold an int, an open file with an integer of at
  -- most 20 digits that no int holds, which passes the test, makes `read` throw, whatever the files after it are;
  -- the results of the first files stay appended, and no status is returned.
  pub read-throws :
      (fs : Sysfs) (resolution : F) (axes : List Axis) (h : ReadHandler) (hs : List ReadHandler)
      (minus : Bool) (n : ℕ) (results : List F)
      → AllReadable fs axes
      → h.is_open ≡ true
      → fs.content h.file_name ≡ decimal_line minus n
      → (if minus then 2147483648 else 2147483647) < n
      → n < 10 ^ 20
      → read ops fs resolution (handlers axes ++ h ∷ hs) results
        ≡ (throws, results ++ scaled resolution axes)
  unfolding read handlers scaled Stream.read AllReadable
  read-throws fs resolution [] h hs minus n results ok opened holds large small =
      let (valid, reads) = decimal_line-stoi minus n small in
      let number : stoi (decimal_line minus n) ≡ out_of_range =
        reads ∙ signed_value-none minus n large in
      rw (opened, holds, valid, number) (ap (λ r. (throws, r)) (sym (append-nil results)))
  read-throws fs resolution (a ∷ axes) h hs minus n results (ok, more) opened holds large small =
      let (valid, number) = readable-value fs a ok in
      rw (ok.opened, ok.holds, valid, number)
        (read-throws fs resolution axes h hs minus n (results ++ _ ∷ []) more opened holds large
            small
          ∙ ap (λ r. (throws, r)) (append_assoc results (_ ∷ []) (scaled resolution axes)))
