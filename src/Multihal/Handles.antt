-- ===== src/Multihal/Handles.antt =====
-- The sensor handles of the proxy, of sensors/multihal/2.X/HalProxy.{h,cpp}: the index of a sub-HAL in the first
-- byte, and the sub-HAL's own handle below it. An int32_t is its 32-bit pattern; the shift to the right is
-- that of a signed number, and its result a size_t.
use bosch_mems_android_hal.Common.{
  ℕ, ◌+◌, ◌-◌, ◌*◌, ◌/◌, ◌%◌, ◌^◌, ◌<◌, ◌≡◌, Bool, true, ltb, ◌==◌, if◌then◌else◌, bit_and, bit_or,
  arith, ==_iff, or-fields, and-mask, and-fields, ◌↔◌, ap, ◌∙◌,
}

-- kSensorHandleSubHalIndexMask
abbrev pub sub_hal_index_mask : ℕ
sub_hal_index_mask = 0xff00_0000

-- kBitsAfterSubHalIndex
abbrev pub bits_after_sub_hal_index : ℕ
bits_after_sub_hal_index = 24

unfoldable pub set_sub_hal_index : ℕ → ℕ → ℕ
set_sub_hal_index handle index =
    bit_or handle (index % 2 ^ 32 * 2 ^ bits_after_sub_hal_index % 2 ^ 32)

unfoldable pub extract_sub_hal_index : ℕ → ℕ
extract_sub_hal_index handle =
    if ltb handle (2 ^ 31)
    then handle / 2 ^ bits_after_sub_hal_index
    else 2 ^ 64 - 256 + handle / 2 ^ bits_after_sub_hal_index

-- `~mask` of the 32-bit mask.
unfoldable pub clear_sub_hal_index : ℕ → ℕ
clear_sub_hal_index handle = bit_and handle (2 ^ 32 - 1 - sub_hal_index_mask)

unfoldable pub sub_hal_index_is_clear : ℕ → Bool
sub_hal_index_is_clear handle = bit_and handle sub_hal_index_mask == 0

-- The first byte is clear where the handle is one of 24 bits.
pub is_clear_iff :
    (handle : ℕ) → handle < 2 ^ 32 → (sub_hal_index_is_clear handle ≡ true) ↔ (handle < 2 ^ 24)
unfolding sub_hal_index_is_clear
is_clear_iff handle h =
    let split : handle ≡ handle / 2 ^ 24 * 2 ^ 24 + handle % 2 ^ 24 = omega arith in
    let byte : handle / 2 ^ 24 % 2 ^ 8 ≡ handle / 2 ^ 24 = omega arith in
    let masked : bit_and handle sub_hal_index_mask ≡ handle / 2 ^ 24 * 2 ^ 24 =
      ap (λ n. bit_and n sub_hal_index_mask) split
      ∙ and-fields 24 (handle / 2 ^ 24) (handle % 2 ^ 24) 255 (omega arith)
      ∙ ap (λ n. n * 2 ^ 24) (and-mask 8 (handle / 2 ^ 24) ∙ byte) in
    rw masked (
      (λ e. let zero_byte = (==_iff _ _).0 e in omega arith),
      λ small. (==_iff _ _).1 (omega arith),
    )

pub set-sum :
    (handle index : ℕ)
    → handle < 2 ^ 24
    → index < 256
    → set_sub_hal_index handle index ≡ index * 2 ^ 24 + handle
unfolding set_sub_hal_index
set-sum handle index h k =
    let small : index % 2 ^ 32 * 2 ^ 24 % 2 ^ 32 ≡ index * 2 ^ 24 = omega arith in
    rw small (or-fields 24 handle index h)

pub clear-set :
    (handle index : ℕ)
    → handle < 2 ^ 24
    → index < 256
    → clear_sub_hal_index (set_sub_hal_index handle index) ≡ handle
unfolding clear_sub_hal_index
clear-set handle index h k =
    rw (set-sum handle index h k, and-mask 24 (index * 2 ^ 24 + handle)) (omega arith)

pub extract-set :
    (handle index : ℕ)
    → handle < 2 ^ 24
    → index < 128
    → extract_sub_hal_index (set_sub_hal_index handle index) ≡ index
unfolding extract_sub_hal_index
extract-set handle index h k = rw (set-sum handle index h (omega arith)) (ground arith)

-- From 128 on the handle is negative, and its index is out of every range.
pub extract-set_negative :
    (handle index : ℕ)
    → handle < 2 ^ 24
    → 127 < index
    → index < 256
    → extract_sub_hal_index (set_sub_hal_index handle index) ≡ 2 ^ 64 - 256 + index
unfolding extract_sub_hal_index
extract-set_negative handle index h k l = rw (set-sum handle index h l) (ground arith)
