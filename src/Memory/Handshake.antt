-- ===== src/Memory/Handshake.antt =====
-- `create` in one process and `attach` in another, by include/shmspsc/ShmSpscQueue.h, and the queue
-- that the two then have.
use shm_spsc.Base.{
  ℕ, ◌+◌, ◌*◌, ◌^◌, ◌<◌, ◌≤◌, ◌≡◌, ap, ◌∙◌, some, List, length, take, get_elem?, arith, size_max,
}
use mathlib.Core.Path.{subst}
use shm_spsc.Base.Results.{ok}
use shm_spsc.Layout.{Role, Binary, ControlBlock, sizeof_control}
use shm_spsc.Layout.Bounds.{true_size}
use shm_spsc.Ring.{Handle}
use shm_spsc.Segment.Laws.{Resources}
use shm_spsc.Claim.{Attempt}
use shm_spsc.Attach.{no_handle, clamp, slot_count, init_control}
use shm_spsc.Connect.{Host, create_queue, attach}
use shm_spsc.Connect.Held.{HostLaws}
use shm_spsc.Connect.Sound.{Attached, attach_sound}
use shm_spsc.Spsc.{System}
use shm_spsc.Spsc.Step.{fresh, Reach}
use shm_spsc.Spsc.Pending.{writes, reads}
use shm_spsc.Spsc.Safety.{IsFresh, fifo, bounded}
use shm_spsc.Memory.{IsMapped, IsInside}
use shm_spsc.Memory.Slots.{Apart}
use shm_spsc.Memory.Joined.{
  filled, filled-IsMapped, filled-capacity, filled-read, filled-write, bind-handle, validate_fits,
  needed_lem,
}
use shm_spsc.Memory.Made.{
  Placed, create-fits, create_in_bounds, init_control-capacity, init_control-offset,
  init_control-indices,
}
use shm_spsc.Connect.Fresh.{clamp_in}
use shm_spsc.Memory.Accesses.{accesses_in_bounds}

-- The fields that `bind` reads are as `create` writes them for this capacity and binary.
pub record IsWritten (b : Binary) (capacity bytes : ℕ) (c : ControlBlock) : Type 0 where
  pub slots : c.capacity ≡ (init_control b (slot_count capacity) bytes).capacity
  pub offset : c.slots_offset ≡ (init_control b (slot_count capacity) bytes).slots_offset
  pub read : c.read_idx ≡ (init_control b (slot_count capacity) bytes).read_idx
  pub write : c.write_idx ≡ (init_control b (slot_count capacity) bytes).write_idx

module _ {S : Type 0} (host : Host S) (b : Binary) (capacity bytes : ℕ)
    (exact : slot_count capacity ≡ clamp capacity + 1)
    (small : true_size b (clamp capacity) ≤ size_max)
    (served : (addr : ℕ) (s : S)
      → (host.view addr s).ready ≡ 1
      → IsWritten b capacity bytes (host.view addr s)) where
  Attached-Placed :
      (attempts : List Attempt) (role : Role) (h : Handle)
      → Attached host b attempts role h
      → Placed b capacity h
  Attached-Placed attempts role h (g, addr, s, c', at, up, good, done) =
      let c = host.view addr s in
      let w = served addr s up in
      let (no_read, no_write) = init_control-indices b (slot_count capacity) bytes in
      let e =
        bind-handle (host.kill s) host.self attempts role
          (record no_handle { seg = g; ctrl = some addr }) h c c c' done in
      let many : c.capacity ≡ clamp capacity + 1 =
        w.slots ∙ init_control-capacity b (slot_count capacity) bytes ∙ exact in
      let offset : c.slots_offset ≡ sizeof_control b =
        w.offset ∙ init_control-offset b (slot_count capacity) bytes in
      let size : c.slots_offset + c.capacity * b.elem_size ≡ true_size b (clamp capacity) =
        omega (arith, offset, ap (λ k. k * b.elem_size) many) in
      let fits : c.slots_offset + c.capacity * b.elem_size ≤ g.size =
        omega (arith, validate_fits b c g.size good, needed_lem b c (omega (arith, size, small))) in
      let m = filled-IsMapped b g addr role c at fits in
      rw e (
        addr,
        subst (λ k. IsMapped b addr k (clamp capacity + 1) (filled g addr role c)) offset
            (subst (λ k. IsMapped b addr c.slots_offset k (filled g addr role c)) many m),
        filled-capacity b g addr role c ∙ many,
        filled-read g addr role c ∙ w.read ∙ no_read,
        filled-write g addr role c ∙ w.write ∙ no_write,
      )

-- What the two processes may do in a state of the queue: elements arrive in order, no more than the
-- capacity asked for (one at least) are between the two, and each accesses its own mapping, behind
-- the control block, and no byte that the other may access.
pub record IsSafe {ℓ} {A : Type ℓ} (b : Binary) (capacity : ℕ) (p c : Handle) (s : System A)
    : Type ℓ where
  pub order : s.received ≡ take (length s.received) s.sent
  pub few : length s.sent ≤ length s.received + clamp capacity
  pub writes_inside :
      (m i : ℕ)
      → get_elem? (writes s.producer.pc) m ≡ some i
      → (base : ℕ) × (p.seg.addr ≡ some base)
        × IsInside b base (sizeof_control b) s.producer.handle i
  pub reads_inside :
      (n j : ℕ)
      → get_elem? (reads s.consumer.pc) n ≡ some j
      → (base : ℕ) × (c.seg.addr ≡ some base)
        × IsInside b base (sizeof_control b) s.consumer.handle j
  pub apart :
      (m n i j : ℕ)
      → get_elem? (writes s.producer.pc) m ≡ some i
      → get_elem? (reads s.consumer.pc) n ≡ some j
      → Apart b.elem_size i j

Placed-IsSafe {ℓ} :
    {A : Type ℓ} (b : Binary) (capacity : ℕ) (slots : List A) (p c : Handle)
    → capacity < 2 ^ 63
    → clamp capacity + 1 ≤ length slots
    → Placed b capacity p
    → Placed b capacity c
    → (s : System A) → Reach (fresh slots p c) s
    → IsSafe b capacity p c s
Placed-IsSafe b capacity slots p c small whole (base, mapped, many, read, _)
      (base', mapped', many', _, write) s reach =
    let (lo, hi) = clamp_in capacity small in
    let f : IsFresh (clamp capacity + 1) slots p c = record {
      room = omega (arith, lo);
      small = omega (arith, hi);
      whole = whole;
      producer_capacity = many;
      consumer_capacity = many';
      read_cached = read;
      write_cached = write;
    } in
    let (mine, yours, apart) =
      accesses_in_bounds b (sizeof_control b) (clamp capacity + 1) f base base' mapped mapped' s
        reach in
    record {
      order = fifo f s reach;
      few = omega (arith, bounded f s reach);
      writes_inside = λ m i at. (base, mapped.starts, mine m i at);
      reads_inside = λ n j at. (base', mapped'.starts, yours n j at);
      apart = apart;
    }

-- The role that is left for the other process.
abbrev pub other : Role → Role
other Role.producer = Role.consumer
other Role.consumer = Role.producer

-- The producer's handle and the consumer's, of two of which the first has the role.
abbrev pub sides : Role → Handle → Handle → Handle × Handle
sides Role.producer h h' = (h, h')
sides Role.consumer h h' = (h', h)

sides-Placed :
    (b : Binary) (capacity : ℕ) (role : Role) (h h' : Handle)
    → Placed b capacity h
    → Placed b capacity h'
    → Placed b capacity (sides role h h').0 × Placed b capacity (sides role h h').1
sides-Placed b capacity Role.producer h h' made joined = (made, joined)
sides-Placed b capacity Role.consumer h h' made joined = (joined, made)

module _ {S S' : Type 0} (host : Host S) (host' : Host S') (r : Resources S) (name : List ℕ)
    (laws : HostLaws host r name) (b : Binary) (capacity bytes : ℕ) (small : capacity < 2 ^ 63)
    (solid : 0 < b.elem_size)
    (served : (addr : ℕ) (s : S')
      → (host'.view addr s).ready ≡ 1
      → IsWritten b capacity bytes (host'.view addr s)) where
  -- A `create` that returns and an `attach` for the other role that returns, in either assignment of
  -- the roles, for a capacity below 2^63 and elements of at least a byte, where each published block
  -- that the second process sees has the capacity, the offset and the indices that `create` writes:
  -- in every state that the two reach on their handles, elements arrive in order, no more than the
  -- capacity asked for (one at least) are between the two, and each accesses its own mapping, behind
  -- the control block, and no byte that the other may access.
  pub handshake-IsSafe {ℓ} :
      {A : Type ℓ} (slots : List A) (role : Role) (attempts attempts' : List Attempt)
      (fuel timeout_ms : ℕ) (s u : S) (s' u' : S') (h h' : Handle)
      → clamp capacity + 1 ≤ length slots
      → create_queue host b attempts name capacity role s ≡ some (ok h, u)
      → attach host' b fuel attempts' name (other role) timeout_ms s' ≡ some (ok h', u')
      → (q : System A) → Reach (fresh slots (sides role h h').0 (sides role h h').1) q
      → IsSafe b capacity (sides role h h').0 (sides role h h').1 q
  handshake-IsSafe slots role attempts attempts' fuel timeout_ms s u s' u' h h' whole made joined =
      let (fits, exact) =
        create-fits host r name laws b attempts capacity role (omega arith) solid s u h made in
      let (placed, _) =
        create_in_bounds host r name laws b attempts capacity role (omega arith) solid s u h made in
      let placed' =
        Attached-Placed host' b capacity bytes exact fits served attempts' (other role) h'
          (attach_sound host' b fuel attempts' name (other role) timeout_ms s' u' h' joined) in
      let (mine, yours) = sides-Placed b capacity role h h' placed placed' in
      Placed-IsSafe b capacity slots (sides role h h').0 (sides role h h').1 small whole mine yours
