-- ===== src/Memory/Joined.antt =====
-- The slots of a handle that `attach` of include/shmspsc/ShmSpscQueue.h returns.
use shm_spsc.Base.{
  ℕ, ◌+◌, ◌*◌, ◌<◌, ◌≤◌, ◌^◌, ◌≡◌, refl, sym, ap, ◌∙◌, true, Option, none, some, List, arith,
  u64_mod, mul64,
}
use native.Mathlib.Nat.{mod-eq_of_lt}
use shm_spsc.Base.Int.{ℤ}
use shm_spsc.Base.Results.{ok}
use shm_spsc.Layout.{Role, Binary, ControlBlock}
use shm_spsc.Ring.{Segment, Handle}
use shm_spsc.Claim.{Kill, Attempt, Claimed, claim, own_pid}
use shm_spsc.Attach.{no_handle, validate, needed, bind, bind_result, load_members}
use shm_spsc.Connect.{Host, attach}
use shm_spsc.Connect.Sound.{Attached, attach_sound}
use shm_spsc.Memory.{IsMapped, IsInside}
use shm_spsc.Memory.Slots.{slot-IsInside}

ok-inj : {a b : Handle × ControlBlock} → some (ok a) ≡ some (ok b) → a ≡ b
ok-inj e = cc

bind_result-handle :
    (role : Role) (self : ℤ) (h h' : Handle) (c c' : ControlBlock) (o : Option Claimed)
    → bind_result role self h c o ≡ some (ok (h', c'))
    → h' ≡ record h { bound = true }
bind_result-handle role self h h' c c' none e = absurd (cc)
bind_result-handle role self h h' c c' (some Claimed.kept) e = sym (ap (λ q. q.0) (ok-inj e))
bind_result-handle role self h h' c c' (some Claimed.stored) e = sym (ap (λ q. q.0) (ok-inj e))
bind_result-handle role self h h' c c' (some (Claimed.refused pid)) e = absurd (cc)

-- The handle of a `bind` that returns is the one that it has filled from the block.
pub bind-handle :
    (kill : Kill) (self : ℤ) (attempts : List Attempt) (role : Role) (h h' : Handle)
    (c later c' : ControlBlock)
    → bind kill self attempts role h c later ≡ some (ok (h', c'))
    → h' ≡ record (load_members role h c) { bound = true }
unfolding bind
bind-handle kill self attempts role h h' c later c' e =
    bind_result-handle role self (load_members role h c) h' later c'
      (claim kill self attempts (own_pid role c)) e

-- `validate` accepts only what fits the mapping, with the sum that it has computed.
pub validate_fits :
    (b : Binary) (c : ControlBlock) (size : ℕ) → validate b c size ≡ none → needed b c ≤ size
unfolding validate
validate_fits b c size h = ground arith

-- A handle as `bind` leaves it, filled from the block `c` at the start of its mapping.
abbrev pub filled : Segment → (base : ℕ) → Role → ControlBlock → Handle
filled g base role c =
    record (load_members role (record no_handle { seg = g; ctrl = some base }) c) { bound = true }

module _ (b : Binary) (g : Segment) (base : ℕ) (role : Role) (c : ControlBlock) where
  pub filled-IsMapped :
      g.addr ≡ some base
      → c.slots_offset + c.capacity * b.elem_size ≤ g.size
      → IsMapped b base c.slots_offset c.capacity (filled g base role c)
  unfolding load_members
  filled-IsMapped at le = record { starts = at; slots = refl; room = le }

  pub filled-addr : g.addr ≡ some base → (filled g base role c).seg.addr ≡ some base
  unfolding load_members
  filled-addr at = at

  pub filled-capacity : (filled g base role c).capacity ≡ c.capacity
  unfolding load_members
  filled-capacity = refl

module _ (g : Segment) (base : ℕ) (role : Role) (c : ControlBlock) where
  pub filled-read : (filled g base role c).read_idx_cache ≡ c.read_idx
  unfolding load_members
  filled-read = refl

  pub filled-write : (filled g base role c).write_idx_cache ≡ c.write_idx
  unfolding load_members
  filled-write = refl

-- Without a wrap, what `validate` has computed is where the slots end.
pub needed_lem :
    (b : Binary) (c : ControlBlock)
    → c.slots_offset + c.capacity * b.elem_size < u64_mod
    → needed b c ≡ c.slots_offset + c.capacity * b.elem_size
needed_lem b c h =
    let e : mul64 c.capacity b.elem_size ≡ c.capacity * b.elem_size = mod-eq_of_lt (omega arith) in
    rw e (mod-eq_of_lt h)

-- All the slots of a handle lie in its mapping.
abbrev pub InBounds : Binary → Handle → Type 0
InBounds b h =
    (base : ℕ) × (offset : ℕ) × (h.seg.addr ≡ some base)
    × ((i : ℕ) → i < h.capacity → IsInside b base offset h i)

module _ {S : Type 0} (host : Host S) (b : Binary)
    (word : (addr : ℕ) (s : S) → (host.view addr s).slots_offset < 2 ^ 32) where
  attached_lem :
      (attempts : List Attempt) (role : Role) (h : Handle)
      → Attached host b attempts role h
      → h.capacity * b.elem_size + 2 ^ 32 ≤ u64_mod
      → InBounds b h
  attached_lem attempts role h (g, addr, s, c', at, up, good, done) small =
      let c = host.view addr s in
      let e =
        bind-handle (host.kill s) host.self attempts role
          (record no_handle { seg = g; ctrl = some addr }) h c c c' done in
      let cap : h.capacity ≡ c.capacity =
        ap (λ (k : Handle). k.capacity) e ∙ filled-capacity b g addr role c in
      let few : c.capacity * b.elem_size + 2 ^ 32 ≤ u64_mod = rw (sym cap) small in
      let fits : c.slots_offset + c.capacity * b.elem_size ≤ g.size =
        omega (
          arith,
          validate_fits b c g.size good,
          needed_lem b c (omega (arith, few, word addr s)),
        ) in
      (
        addr,
        c.slots_offset,
        ap (λ (k : Handle). k.seg.addr) e ∙ filled-addr b g addr role c at,
        λ i lt.
            rw e
              (slot-IsInside (filled-IsMapped b g addr role c at fits) i (omega (arith, cap, lt))),
      )

  -- A handle that `attach` returns, whose slots take less than 2^64 - 2^32 bytes: whatever the block
  -- of the segment says, each slot below `capacity_` lies in the mapping.
  pub attach-InBounds :
      (fuel : ℕ) (attempts : List Attempt) (name : List ℕ) (role : Role) (timeout_ms : ℕ) (s t : S)
      (h : Handle)
      → attach host b fuel attempts name role timeout_ms s ≡ some (ok h, t)
      → h.capacity * b.elem_size + 2 ^ 32 ≤ u64_mod
      → InBounds b h
  attach-InBounds fuel attempts name role timeout_ms s t h e small =
      attached_lem attempts role h (attach_sound host b fuel attempts name role timeout_ms s t h e)
        small
