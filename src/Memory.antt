-- ===== src/Memory.antt =====
-- include/shmspsc/ShmSpscQueue.h: where a process accesses the memory of the segment, by the
-- pointers that its handle holds. It joins `Layout`, `Connect` and `Spsc`.
pub mod Slots
pub mod Made
pub mod Joined
pub mod Accesses
pub mod Handshake
use shm_spsc.Base.{ℕ, ◌+◌, ◌*◌, ◌≤◌, ◌≡◌, Option, none, some}
use shm_spsc.Layout.{Binary}
use shm_spsc.Ring.{Handle}

-- `&slots_[i]`, an address in the memory of the process
abbrev pub element : Option ℕ → (elem_size i : ℕ) → Option ℕ
element none elem_size i = none
element (some slots) elem_size i = some (slots + i * elem_size)

unfoldable pub slot_pointer : Binary → Handle → ℕ → Option ℕ
slot_pointer b h i = element h.slots b.elem_size i

-- `capacity` elements from offset `offset` of the mapping at `base` on, and none beyond its end.
pub record IsMapped (b : Binary) (base offset capacity : ℕ) (h : Handle) : Type 0 where
  pub starts : h.seg.addr ≡ some base
  pub slots : h.slots ≡ some (base + offset)
  pub room : offset + capacity * b.elem_size ≤ h.seg.size

-- The bytes of element `i` lie in the mapping, behind `offset`.
pub record IsInside (b : Binary) (base offset : ℕ) (h : Handle) (i : ℕ) : Type 0 where
  pub pointer : slot_pointer b h i ≡ some (base + (offset + i * b.elem_size))
  pub ends : base + (offset + i * b.elem_size) + b.elem_size ≤ base + h.seg.size
