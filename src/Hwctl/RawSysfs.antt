-- ===== src/Hwctl/RawSysfs.antt =====
-- RawSysfsHandler of sensors/hwctl/FileHandler.{h,cpp}.
use bosch_mems_android_hal.Common.{List, [], ◌∷◌, ◌++◌, Bytes, if◌then◌else◌, not, FloatOps}
use bosch_mems_android_hal.Hwctl.Stream.{
  Sysfs, Status, success, failure, is_success, ReadHandler, make_read_handler, read as read_file,
}
use bosch_mems_android_hal.Hwctl.Number.{is_valid_integer, stoi, Stoi, value}

-- `init` appends a handler for each file, up to the first empty name.
unfoldable pub init : Sysfs → List ReadHandler → Bytes → List Bytes → List ReadHandler
unfolding make_read_handler
init fs handlers path [] = handlers
init fs handlers path ([] ∷ files) = handlers
init fs handlers path ((c ∷ file) ∷ files) =
    init fs (handlers ++ make_read_handler fs path (c ∷ file) ∷ []) path files

-- How a read ends: with a status, or by an exception of std::stoi.
pub data Outcome : Type 0 where
  returns : Status → Outcome
  throws : Outcome

module _ {F : Type 0} (ops : FloatOps F) where
  -- The number of one content, scaled. An exception stops the loop with the results so far.
  after_number : Stoi → F → List F → (List F → Outcome × List F) → Outcome × List F
  after_number (value n) resolution results next =
      next (results ++ ops.mul (ops.of_int n) resolution ∷ [])
  after_number Stoi.invalid_argument resolution results next = (throws, results)
  after_number Stoi.out_of_range resolution results next = (throws, results)

  -- The loop of `read`. `results` is the caller's vector, which keeps what was pushed before an error.
  unfoldable pub read : Sysfs → F → List ReadHandler → List F → Outcome × List F
  unfolding after_number read_file
  read fs resolution [] results = (returns success, results)
  read fs resolution (h ∷ handlers) results =
      let (status, content) = read_file fs h [] in
      let next = λ (r : List F). read fs resolution handlers r in
      if not (is_success status)
      then (returns status, results)
      else if not (is_valid_integer content)
      then (returns failure, results)
      else after_number (stoi content) resolution results next
