-- ===== src/Tests/Hwctl.antt =====
-- The theorems on sensors/hwctl at concrete values.
use bosch_mems_android_hal.Common.{
  ◌≡◌, refl, true, false, List, [], ◌∷◌, ◌++◌, codes, bytes_eq, if◌then◌else◌, to_string, arith,
}
use bosch_mems_android_hal.Hwctl.Stream.{Sysfs, success, ReadHandler}
use bosch_mems_android_hal.Hwctl.Number.{is_valid_integer, stoi, signed_value}
use bosch_mems_android_hal.Hwctl.RawSysfs.{read, returns, throws}
use bosch_mems_android_hal.Hwctl.Decimals.{decimal_line, decimal_line-stoi}
use bosch_mems_android_hal.Hwctl.Axes.{
  Axis, AllReadable, handlers, scaled, read-scaled, read-throws,
}
use bosch_mems_android_hal.Tests.Values.{ops, sysfs}

decimal_line-stoi_example :
    (is_valid_integer (decimal_line true 1234) ≡ true)
    × (stoi (decimal_line true 1234) ≡ signed_value true 1234)
decimal_line-stoi_example = decimal_line-stoi true 1234 (omega arith)

abbrev x_handler : ReadHandler
x_handler = record { file_name = codes "/d/x"; is_open = true }

abbrev axes : List Axis
axes = record { handler = x_handler; minus = true; magnitude = 12 } ∷ []

read-scaled_example :
    read ops sysfs 2 (handlers axes) (7 ∷ []) ≡ (returns success, 7 ∷ scaled ops 2 axes)
unfolding decimal_line AllReadable to_string
read-scaled_example =
    read-scaled ops sysfs 2 axes (7 ∷ [])
      (record { opened = refl; holds = refl; fits = omega arith }, tt)

-- The second file is of a register that is read as unsigned.
abbrev y_handler : ReadHandler
y_handler = record { file_name = codes "/d/y"; is_open = true }

abbrev large_sysfs : Sysfs
large_sysfs = record sysfs {
  content =
      λ p. if bytes_eq p (codes "/d/y") then decimal_line false 4294967295 else sysfs.content p;
}

read-throws_example :
    read ops large_sysfs 2 (handlers axes ++ y_handler ∷ x_handler ∷ []) []
    ≡ (throws, scaled ops 2 axes)
unfolding decimal_line AllReadable to_string
read-throws_example =
    read-throws ops large_sysfs 2 axes y_handler (x_handler ∷ []) false 4294967295 []
      (record { opened = refl; holds = refl; fits = omega arith }, tt) refl refl (omega arith)
      (omega arith)
