-- ===== src/Core/DirectChannel.antt =====
-- sensors/core/DirectChannel.{h,cpp}: the ring of events in shared memory, and the channel around it.
-- The fields of sensors_event_t other than reserved0 are one value of a type `E`; its size, like what
-- ashmem and mmap answer, comes from the platform. `mCounter` wraps at 32 bits.
use bosch_mems_android_hal.Common.{
  ℕ, ◌+◌, ◌-◌, ◌/◌, ◌%◌, ◌^◌, Bool, true, false, not, List, [], ◌∷◌, Option, none, some, set,
  replicate, Map, leb, ◌==◌, if◌then◌else◌, ◌≢◌,
}

pub record Slot {ℓ} (E : Type ℓ) : Type ℓ where
  pub event : E
  pub reserved0 : ℕ

pub record LockfreeBuffer {ℓ} (E : Type ℓ) : Type ℓ where
  pub slots : List (Slot E)  -- mData
  pub size : ℕ
  pub write_pos : ℕ
  pub counter : ℕ

abbrev pub next_counter : ℕ → ℕ
next_counter c = (c + 1) % 2 ^ 32

module _ {ℓ} {E : Type ℓ} where
  -- The constructor on a region of `bytes` bytes: `zero_event` is what memset leaves.
  unfoldable pub make_buffer : E → ℕ → ℕ → LockfreeBuffer E
  make_buffer zero_event event_size bytes = record {
    slots = replicate (bytes / event_size) (record { event = zero_event; reserved0 = 0 });
    size = bytes / event_size;
    write_pos = 0;
    counter = 1;
  }

  -- One round of the loop of `write`.
  unfoldable pub write_one : E → LockfreeBuffer E → LockfreeBuffer E
  write_one e b = record b {
    slots = set b.slots b.write_pos (record { event = e; reserved0 = b.counter });
    counter = next_counter b.counter;
    write_pos = if leb b.size (b.write_pos + 1) then 0 else b.write_pos + 1;
  }

  unfoldable pub write_loop : List E → LockfreeBuffer E → LockfreeBuffer E
  write_loop [] b = b
  write_loop (e ∷ es) b = write_loop es (write_one e b)

  unfoldable pub write : List E → LockfreeBuffer E → LockfreeBuffer E
  unfolding write_loop
  write es b = if b.size == 0 then b else write_loop es b

-- The error codes of utils/Errors.h that the code names.
pub data Error : Type 0 where
  no_error no_init bad_value no_memory : Error

pub record DirectChannel {ℓ} (E : Type ℓ) : Type ℓ where
  pub sensor_handles : List ℕ
  pub rate_ns : Map ℕ
  pub sample_count : Map ℕ
  pub error : Error
  pub buffer : Option (LockfreeBuffer E)
  pub size : ℕ
  pub base : ℕ  -- an address, 0 for nullptr

-- MAP_FAILED
abbrev pub map_failed : ℕ
map_failed = 2 ^ 64 - 1

-- What the platform answers. `mmap` gives the address of a mapping: its failure, MAP_FAILED, is left out, since the
-- code does not test for it and memset on that address is undefined.
pub record Platform {ℓ} (E : Type ℓ) : Type ℓ where
  pub ashmem_valid : ℕ → Bool
  pub region_size : ℕ → ℕ
  pub mmap : ℕ → ℕ → ℕ
  pub maps : (fd bytes : ℕ) → mmap fd bytes ≢ map_failed
  pub zero_event : E
  pub event_size : ℕ

module _ {ℓ} {E : Type ℓ} where
  abbrev unmapped : Error → DirectChannel E
  unmapped e = record {
    sensor_handles = [];
    rate_ns = [];
    sample_count = [];
    error = e;
    buffer = none;
    size = 0;
    base = 0;
  }

  -- AshmemDirectChannel's constructor, for a descriptor and a size. `new` does not return nullptr.
  unfoldable pub make_channel : Platform E → ℕ → ℕ → DirectChannel E
  unfolding make_buffer
  make_channel pf fd bytes =
      let base = pf.mmap fd bytes in
      if not (pf.ashmem_valid fd)
      then unmapped bad_value
      else if not (pf.region_size fd == bytes)
      then unmapped bad_value
      else if base == 0
      then record (unmapped no_memory) { size = bytes }
      else record (unmapped no_init) {
        size = bytes;
        base = base;
        buffer = some (make_buffer pf.zero_event pf.event_size bytes);
      }

  unfoldable pub is_valid : DirectChannel E → Bool
  is_valid c = elim c.buffer [ none ↦ false | some b ↦ true ]

  unfoldable pub get_error : DirectChannel E → Error
  get_error c = c.error

  unfoldable pub write_event : E → DirectChannel E → DirectChannel E
  write_event e c = record c {
    buffer = elim c.buffer [ none ↦ none | some b ↦ some (write (e ∷ []) b) ];
  }
