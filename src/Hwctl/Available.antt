-- ===== src/Hwctl/Available.antt =====
-- isSensorAvailable of sensors/hwctl/FileHandler.cpp. The directory's entries come as a list; none
-- stands for an `opendir` that failed.
use bosch_mems_android_hal.Common.{
  Bool, true, false, ◌&&◌, List, [], ◌∷◌, ◌++◌, Option, none, some, Bytes, codes, starts_with,
  if◌then◌else◌, ◌==◌,
}
use bosch_mems_android_hal.Hwctl.Stream.{Sysfs, is_success, make_read_handler, read}
use bosch_mems_android_hal.Hwctl.Number.{is_digit, skip, starts}

abbrev pub iio_path : Bytes
iio_path = codes "/sys/bus/iio/devices/"

abbrev strip : Bytes → Bytes → Option Bytes
strip s [] = some s
strip [] (p ∷ ps) = none
strip (c ∷ s) (p ∷ ps) = if c == p then strip s ps else none

abbrev all_digits : Bytes → Bool
all_digits s = elim (skip is_digit s) [ [] ↦ true | c ∷ r ↦ false ]

-- The pattern `iio:device\d+`.
pub is_iio_device : Bytes → Bool
is_iio_device s = elim (strip s (codes "iio:device")) [
  | none ↦ false
  | some d ↦ starts is_digit d && all_digits d
]

-- The loop over the entries: `none` where no device answers to the name. `device` is set only
-- when one is found.
find_device : Sysfs → Bytes → List Bytes → Option Bytes
find_device fs driver_name [] = none
find_device fs driver_name (entry ∷ entries) =
    let (status, name) = read fs (make_read_handler fs iio_path (entry ++ codes "/name")) [] in
    if is_iio_device entry && is_success status && starts_with name driver_name
    then some (iio_path ++ entry ++ codes "/")
    else find_device fs driver_name entries

unfoldable pub is_sensor_available : Sysfs → Option (List Bytes) → Bytes → Option Bytes
unfolding find_device
is_sensor_available fs none driver_name = none
is_sensor_available fs (some entries) driver_name = find_device fs driver_name entries
