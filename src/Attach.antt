-- ===== src/Attach.antt =====
-- include/shmspsc/ShmSpscQueue.h: how a handle comes to a queue and leaves it. `create` up to the
-- publication of `ready`, `bind`, `validate`, `detach`, and the moves of handles. The control block
-- is passed as it stands when the code reads it.
pub mod Geometry
pub mod Binding
pub mod Stale
use shm_spsc.Base.{
  ℕ, ◌+◌, Bool, true, false, not, ◌||◌, Option, none, some, List, [], ◌∷◌, leb, ltb, ◌==◌,
  if◌then◌else◌, u32, add64, mul64,
}
use shm_spsc.Base.Int.{ℤ, pos, is_positive}
use shm_spsc.Base.Results.{
  Error, Result, ok, err, bad_magic, version_mismatch, cache_line_mismatch, layout_mismatch,
  too_small, already_attached,
}
use shm_spsc.Layout.{
  Role, cache_line, Binary, ControlBlock, sizeof_control, segment_magic, segment_version,
}
use shm_spsc.Ring.{Segment, Handle}
use shm_spsc.Segment.{no_segment}
use shm_spsc.Claim.{Kill, Attempt, Claimed, claim, own_pid, set_own_pid, peer_pid, give_back}

-- A default-constructed handle.
abbrev pub no_handle : Handle
no_handle = record {
  seg = no_segment;
  ctrl = none;
  slots = none;
  capacity = 0;
  role = Role.producer;
  bound = false;
  read_idx_cache = 0;
  write_idx_cache = 0;
}

-- `capacity`, at least 1
abbrev pub clamp : ℕ → ℕ
clamp capacity = if ltb capacity 1 then 1 else capacity

unfoldable pub slot_count : ℕ → ℕ
slot_count capacity = add64 (clamp capacity) 1

-- What `create` writes into the control block before `bind`, for a segment of `bytes`.
unfoldable pub init_control : Binary → (slots bytes : ℕ) → ControlBlock
init_control b slots bytes = record {
  magic = segment_magic;
  capacity = slots;
  total_bytes = bytes;
  version = segment_version;
  cache_line_size = u32 (cache_line b.platform);
  elem_size = u32 b.elem_size;
  elem_align = u32 b.elem_align;
  slots_offset = u32 (sizeof_control b);
  producer_pid = pos 0;
  consumer_pid = pos 0;
  ready = 0;
  write_idx = 0;
  read_idx = 0;
}

abbrev pub needed : Binary → ControlBlock → ℕ
needed b c = add64 c.slots_offset (mul64 c.capacity b.elem_size)

-- `validate`, on a mapping of `size` bytes: what it throws, if it does
unfoldable pub validate : Binary → ControlBlock → (size : ℕ) → Option Error
validate b c size =
    if not (c.magic == segment_magic)
    then some bad_magic
    else if not (c.version == segment_version)
    then some (version_mismatch c.version)
    else if not (c.cache_line_size == cache_line b.platform)
    then some (cache_line_mismatch c.cache_line_size)
    else if not (c.elem_size == b.elem_size) || not (c.elem_align == b.elem_align)
    then some (layout_mismatch c.elem_size c.elem_align)
    else if ltb c.total_bytes (needed b c) || ltb size c.total_bytes
    then some (too_small (needed b c))
    else none

abbrev pub after : Option ℕ → ℕ → Option ℕ
after none offset = none
after (some addr) offset = some (addr + offset)

-- The members that `bind` sets before its loop, from the control block `c`.
unfoldable pub load_members : Role → Handle → ControlBlock → Handle
load_members role h c = record h {
  role = role;
  capacity = c.capacity;
  slots = after h.ctrl c.slots_offset;
  read_idx_cache = c.read_idx;
  write_idx_cache = c.write_idx;
}

abbrev pub bind_result :
    Role → ℤ → Handle → ControlBlock → Option Claimed → Option (Result (Handle × ControlBlock))
bind_result role self h c none = none
bind_result role self h c (some Claimed.kept) = some (ok (record h { bound = true }, c))
bind_result role self h c (some Claimed.stored) =
    some (ok (record h { bound = true }, set_own_pid role self c))
bind_result role self h c (some (Claimed.refused pid)) = some (err (already_attached pid))

-- `bind`: it reads the block as `c`, and at the end of its loop the block is `later`.
unfoldable pub bind :
    Kill
    → (self : ℤ) → List Attempt
    → Role
    → Handle
    → (c later : ControlBlock) → Option (Result (Handle × ControlBlock))
bind kill self attempts role h c later =
    bind_result role self (load_members role h c) later (claim kill self attempts (own_pid role c))

abbrev pub has : Option ℕ → Bool
has none = false
has (some addr) = true

-- `detach`: the handle and the control block that it leaves; `reset` of its segment comes last.
unfoldable pub detach : (self : ℤ) → Handle → ControlBlock → Handle × ControlBlock
detach self h c = (
  record h { seg = no_segment; ctrl = none; slots = none; bound = false },
  if has h.ctrl
      then if h.bound then set_own_pid h.role (give_back self (own_pid h.role c)) c else c
      else c,
)

-- `swapWith`, member by member
unfoldable pub swap_with : Handle → Handle → Handle × Handle
swap_with h o = (
  record {
    seg = o.seg;
    ctrl = o.ctrl;
    slots = o.slots;
    capacity = o.capacity;
    role = o.role;
    bound = o.bound;
    read_idx_cache = o.read_idx_cache;
    write_idx_cache = o.write_idx_cache;
  },
  record {
    seg = h.seg;
    ctrl = h.ctrl;
    slots = h.slots;
    capacity = h.capacity;
    role = h.role;
    bound = h.bound;
    read_idx_cache = h.read_idx_cache;
    write_idx_cache = h.write_idx_cache;
  },
)

-- The move constructor: the new handle, and the source.
unfoldable pub move_from : Handle → Handle × Handle
move_from o = swap_with no_handle o

-- The move assignment, where the block is that of the handle assigned to: both handles, and the
-- block. `same_object` is the test `this == &o`.
unfoldable pub move_assign :
    (self : ℤ)
    → (same_object : Bool) → (h o : Handle) → ControlBlock
    → Handle × Handle × ControlBlock
move_assign self same_object h o c =
    if same_object
    then (h, o, c)
    else let (h', c') = detach self h c in let (h'', o') = swap_with h' o in (h'', o', c')

-- The loop of `waitForPeer`: what each iteration reads of the peer's slot and then of the clock.
-- `none`: it goes on.
unfoldable pub wait_for_peer : (deadline : ℕ) → List (ℤ × ℕ) → Option Bool
wait_for_peer deadline [] = none
wait_for_peer deadline ((pid, now) ∷ rest) =
    if is_positive pid
    then some true
    else if leb deadline now
    then some false
    else wait_for_peer deadline rest
