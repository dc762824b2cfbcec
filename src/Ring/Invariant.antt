-- ===== src/Ring/Invariant.antt =====
-- The invariant of the ring, and what a stale index cache may be.
use shm_spsc.Base.{ℕ, ◌<◌, ◌≤◌, ◌^◌, ◌≡◌, List, arith, length}
use shm_spsc.Layout.{ControlBlock}
use shm_spsc.Ring.{Handle, Shared, refresh_read, refresh_write}
use shm_spsc.Ring.Index.{used, used-lt}
use shm_spsc.Ring.Window.{window, length-window}

-- Slots in use.
abbrev pub count : ControlBlock → ℕ
count c = used c.capacity c.write_idx c.read_idx

-- `ftruncate` takes a signed size, so a segment is shorter than 2^63 bytes, and holds fewer slots.
pub record IsRing {ℓ} {A : Type ℓ} (s : Shared A) : Type 0 where
  pub room : 2 ≤ s.ctrl.capacity
  pub small : s.ctrl.capacity ≤ 2 ^ 63
  pub whole : s.ctrl.capacity ≤ length s.slots
  pub write_in : s.ctrl.write_idx < s.ctrl.capacity
  pub read_in : s.ctrl.read_idx < s.ctrl.capacity

-- The read index that a pushing handle remembers shows no more room than there is.
pub record IsWriter (h : Handle) (c : ControlBlock) : Type 0 where
  pub same : h.capacity ≡ c.capacity
  pub cache_in : h.read_idx_cache < c.capacity
  pub stale : count c ≤ used c.capacity c.write_idx h.read_idx_cache

-- The write index that a popping handle remembers shows no more elements than there are.
pub record IsReader (h : Handle) (c : ControlBlock) : Type 0 where
  pub same : h.capacity ≡ c.capacity
  pub cache_in : h.write_idx_cache < c.capacity
  pub stale : used c.capacity h.write_idx_cache c.read_idx ≤ count c

-- The elements that are in the ring, oldest first.
abbrev pub contents {ℓ} : {A : Type ℓ} → Shared A → List A
contents s = window s.slots s.ctrl.capacity s.ctrl.read_idx (count s.ctrl)

pub count-lt {ℓ} : {A : Type ℓ} {s : Shared A} → IsRing s → count s.ctrl < s.ctrl.capacity
count-lt {s} v = used-lt s.ctrl.capacity s.ctrl.write_idx s.ctrl.read_idx v.write_in v.read_in

pub length-contents {ℓ} :
    {A : Type ℓ} {s : Shared A} → IsRing s → length (contents s) ≡ count s.ctrl
length-contents {s} v =
    length-window s.slots s.ctrl.capacity v.whole s.ctrl.read_idx (count s.ctrl) v.read_in
      (omega (arith, count-lt v))

-- A fresh load of the peer's index makes a cache exact.
pub refresh_read-IsWriter {ℓ} :
    {A : Type ℓ} {s : Shared A}
    → IsRing s
    → (h : Handle) → h.capacity ≡ s.ctrl.capacity
    → IsWriter (refresh_read h s) s.ctrl
refresh_read-IsWriter v h e = record { same = e; cache_in = v.read_in; stale = omega arith }

pub refresh_write-IsReader {ℓ} :
    {A : Type ℓ} {s : Shared A}
    → IsRing s
    → (h : Handle) → h.capacity ≡ s.ctrl.capacity
    → IsReader (refresh_write h s) s.ctrl
refresh_write-IsReader v h e = record { same = e; cache_in = v.write_in; stale = omega arith }
