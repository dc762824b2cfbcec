-- ===== src/Ring.antt =====
-- include/shmspsc/ShmSpscQueue.h: the handle, and the operations on the ring. Each takes the handle
-- and the shared memory that it points to, and returns them as it leaves them. Every index sum and
-- difference is one of `std::uint64_t`. Here an operation runs whole.
pub mod Index
pub mod Window
pub mod Invariant
pub mod Single
pub mod Copies
pub mod Batch
pub mod Unbatch
pub mod Refine
pub mod Observers
use shm_spsc.Base.{
  ℕ, ◌+◌, min, Bool, true, false, Option, none, some, List, [], ◌∷◌, ◌++◌, ltb, leb, ◌==◌,
  if◌then◌else◌, add64, sub64, set, take, drop, get_elem?,
}
use shm_spsc.Layout.{Role, ControlBlock}

-- `ShmSegment`: the mapping's address (`none` for `nullptr`), its size, and the name in bytes.
pub record Segment : Type 0 where
  pub addr : Option ℕ
  pub size : ℕ
  pub owner : Bool
  pub name : List ℕ

-- `ShmSpscQueue`: the members that each process has for itself. The pointers are addresses.
pub record Handle : Type 0 where
  pub seg : Segment
  pub ctrl : Option ℕ
  pub slots : Option ℕ
  pub capacity : ℕ
  pub role : Role
  pub bound : Bool
  pub read_idx_cache : ℕ
  pub write_idx_cache : ℕ

-- What the segment holds: the control block, and from `slots_offset` on the slots.
pub record Shared {ℓ} (A : Type ℓ) : Type ℓ where
  pub ctrl : ControlBlock
  pub slots : List A

-- `next = i + 1; if (next == capacity_) next = 0;`
unfoldable pub next_index : ℕ → ℕ → ℕ
next_index capacity i = if add64 i 1 == capacity then 0 else add64 i 1

-- `next = i + count; if (next >= capacity_) next -= capacity_;`
unfoldable pub skip_index : ℕ → ℕ → ℕ → ℕ
skip_index capacity i count =
    if leb capacity (add64 i count) then sub64 (add64 i count) capacity else add64 i count

unfoldable pub free_slots : ℕ → ℕ → ℕ → ℕ
free_slots capacity w r = sub64 (if ltb w r then sub64 r w else sub64 (add64 r capacity) w) 1

unfoldable pub used_slots : ℕ → ℕ → ℕ → ℕ
used_slots capacity w r = if leb r w then sub64 w r else sub64 (add64 w capacity) r

module _ {ℓ} {A : Type ℓ} where
  -- `std::memcpy(&dst[i], src, …)`, an element at a time
  abbrev pub copy_in : List A → ℕ → List A → List A
  copy_in dst i [] = dst
  copy_in dst i (x ∷ src) = copy_in (set dst i x) (i + 1) src

  abbrev pub store_write : ℕ → Shared A → Shared A
  store_write w s = record s { ctrl = record s.ctrl { write_idx = w } }

  abbrev pub store_read : ℕ → Shared A → Shared A
  store_read r s = record s { ctrl = record s.ctrl { read_idx = r } }

  -- Both index caches are refreshed by loads of the peer's index.
  abbrev pub refresh_read : Handle → Shared A → Handle
  refresh_read h s = record h { read_idx_cache = s.ctrl.read_idx }

  abbrev pub refresh_write : Handle → Shared A → Handle
  refresh_write h s = record h { write_idx_cache = s.ctrl.write_idx }

  -- the last three lines of `try_push`
  abbrev pub put_one : A → ℕ → ℕ → Shared A → Shared A
  put_one v w next s = store_write next (record s { slots = set s.slots w v })

  unfoldable pub try_push : A → Handle → Shared A → Bool × Handle × Shared A
  try_push v h s =
      let w = s.ctrl.write_idx in
      let next = next_index h.capacity w in
      if next == h.read_idx_cache
      then if next == s.ctrl.read_idx
        then (false, refresh_read h s, s)
        else (true, refresh_read h s, put_one v w next s)
      else (true, h, put_one v w next s)

  -- the two copies of `push_n`, of `count` elements from `src`, and the store
  unfoldable pub put_run : List A → ℕ → ℕ → ℕ → Shared A → Shared A
  put_run src count capacity w s =
      let first = min count (sub64 capacity w) in
      let head = copy_in s.slots w (take first src) in
      let slots =
        if ltb first count
        then copy_in head 0 (take (sub64 count first) (drop first src))
        else head in
      store_write (skip_index capacity w count) (record s { slots = slots })

  unfoldable pub push_n : List A → ℕ → Handle → Shared A → ℕ × Handle × Shared A
  push_n src n h s =
      let w = s.ctrl.write_idx in
      let free = free_slots h.capacity w h.read_idx_cache in
      let again = free_slots h.capacity w s.ctrl.read_idx in
      if n == 0
      then (0, h, s)
      else if ltb free n
      then if again == 0
        then (0, refresh_read h s, s)
        else (min n again, refresh_read h s, put_run src (min n again) h.capacity w s)
      else (min n free, h, put_run src (min n free) h.capacity w s)

  -- The pointer into the slots is the slot's index; `none` is `nullptr`.
  unfoldable pub front : Handle → Shared A → Option ℕ × Handle
  front h s =
      let r = s.ctrl.read_idx in
      if r == h.write_idx_cache
      then if r == s.ctrl.write_idx then (none, refresh_write h s) else (some r, refresh_write h s)
      else (some r, h)

  -- What the pointer that `front` returns points at.
  abbrev pub pointee : Option ℕ → Shared A → Option A
  pointee none s = none
  pointee (some i) s = get_elem? s.slots i

  -- `void pop()` as `-DNDEBUG` compiles it
  unfoldable pub pop : Handle → Shared A → Shared A
  pop h s = store_read (next_index h.capacity s.ctrl.read_idx) s

  -- `void pop()` with the assertion live; `none` is the abort
  unfoldable pub pop_debug : Handle → Shared A → Option (Shared A)
  pop_debug h s = if s.ctrl.write_idx == s.ctrl.read_idx then none else some (pop h s)

  -- `try_pop` behind its call of `front`
  abbrev pub copy_out : Shared A → Option ℕ × Handle → Bool × Option A × Handle × Shared A
  copy_out s (none, h) = (false, none, h, s)
  copy_out s (some i, h) = (true, get_elem? s.slots i, h, pop h s)

  -- The option is what goes through `out`: `none` if nothing is written there.
  unfoldable pub try_pop : Handle → Shared A → Bool × Option A × Handle × Shared A
  try_pop h s = copy_out s (front h s)

  -- the two copies of `pop_n`, of `count` elements
  unfoldable pub take_run : ℕ → ℕ → ℕ → Shared A → List A
  take_run count capacity r s =
      let first = min count (sub64 capacity r) in
      let head = take first (drop r s.slots) in
      if ltb first count then head ++ take (sub64 count first) s.slots else head

  unfoldable pub drop_run : ℕ → ℕ → ℕ → Shared A → Shared A
  drop_run count capacity r s = store_read (skip_index capacity r count) s

  -- The list is what is written to `dst`.
  unfoldable pub pop_n : ℕ → Handle → Shared A → ℕ × List A × Handle × Shared A
  pop_n n h s =
      let r = s.ctrl.read_idx in
      let avail = used_slots h.capacity h.write_idx_cache r in
      let again = used_slots h.capacity s.ctrl.write_idx r in
      if n == 0
      then (0, [], h, s)
      else if ltb avail n
      then if again == 0 then (0, [], refresh_write h s, s) else (
        min n again,
        take_run (min n again) h.capacity r s,
        refresh_write h s,
        drop_run (min n again) h.capacity r s,
      )
      else (
        min n avail,
        take_run (min n avail) h.capacity r s,
        h,
        drop_run (min n avail) h.capacity r s,
      )

  unfoldable pub size : Handle → Shared A → ℕ
  size h s = used_slots h.capacity s.ctrl.write_idx s.ctrl.read_idx

  unfoldable pub empty : Shared A → Bool
  empty s = s.ctrl.write_idx == s.ctrl.read_idx

-- `capacity()`
unfoldable pub usable_capacity : Handle → ℕ
usable_capacity h = sub64 h.capacity 1
