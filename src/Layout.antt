-- ===== src/Layout.antt =====
-- include/shmspsc/ShmSpscQueue.h: the control block at offset 0 of the segment, the role of a
-- handle, and what a binary was compiled with. The padding arrays hold nothing and have no field.
pub mod Fields
pub mod Lines
pub mod Bounds
use shm_spsc.Base.{ℕ, ◌-◌, ◌*◌, ◌/◌, Bool, ◌||◌, ltb, ◌==◌, if◌then◌else◌, size_max, add64, mul64}
use shm_spsc.Base.Int.{ℤ}
use shm_spsc.Base.Results.{Result, ok, err, capacity_overflow}

pub data Role : Type 0 where
  producer consumer : Role

-- Which branch of the `#if` gives the cache line size.
pub data Platform : Type 0 where
  apple_silicon other : Platform

abbrev pub cache_line : Platform → ℕ
cache_line Platform.apple_silicon = 128
cache_line Platform.other = 64

-- A binary, and the `sizeof(T)` and `alignof(T)` of the template argument that it was compiled for.
pub record Binary : Type 0 where
  pub platform : Platform
  pub elem_size : ℕ
  pub elem_align : ℕ

pub record ControlBlock : Type 0 where
  pub magic : ℕ
  pub capacity : ℕ
  pub total_bytes : ℕ
  pub version : ℕ
  pub cache_line_size : ℕ
  pub elem_size : ℕ
  pub elem_align : ℕ
  pub slots_offset : ℕ
  pub producer_pid : ℤ
  pub consumer_pid : ℤ
  pub ready : ℕ
  pub write_idx : ℕ
  pub read_idx : ℕ

-- `sizeof(ControlBlock)`, by the first `static_assert`.
abbrev pub sizeof_control : Binary → ℕ
sizeof_control b = 4 * cache_line b.platform

abbrev pub segment_magic : ℕ
segment_magic = 0x53484d5350534331

abbrev pub segment_version : ℕ
segment_version = 1

-- `capacity == kMax || (capacity + 1) > (kMax - sizeof(ControlBlock)) / sizeof(T)`
abbrev pub overflows : Binary → ℕ → Bool
overflows b capacity =
    capacity == size_max || ltb ((size_max - sizeof_control b) / b.elem_size) (add64 capacity 1)

unfoldable pub bytes_needed : Binary → ℕ → Result ℕ
bytes_needed b capacity =
    if overflows b capacity
    then err (capacity_overflow capacity)
    else ok (add64 (sizeof_control b) (mul64 (add64 capacity 1) b.elem_size))
