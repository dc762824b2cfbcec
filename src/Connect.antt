-- ===== src/Connect.antt =====
-- include/shmspsc/ShmSpscQueue.h: `create` and `attach` whole, from the segment's system calls to
-- the bound handle.
pub mod Ends
pub mod Sound
pub mod Fresh
pub mod Held
pub mod Cleanup
pub mod Made
pub mod Moves
use shm_spsc.Base.{
  ℕ, zero, suc, ◌+◌, Bool, true, false, Option, none, some, List, [], ◌∷◌, leb, ◌==◌, if◌then◌else◌,
}
use shm_spsc.Base.Int.{ℤ}
use shm_spsc.Base.Results.{Error, Result, ok, err, timed_out}
use shm_spsc.Layout.{Role, Binary, ControlBlock, bytes_needed}
use shm_spsc.Ring.{Segment, Handle}
use shm_spsc.Segment.{Os, create, open_object, reset, no_segment}
use shm_spsc.Claim.{Kill, Attempt}
use shm_spsc.Attach.{no_handle, clamp, slot_count, init_control, validate, bind, detach, swap_with}

-- What the system gives a process besides `Os`: the control block that stands at a mapped address,
-- a store to it, `steady_clock::now()` in milliseconds, `usleep(1000)`, `getpid` and `kill`.
pub record Host (S : Type 0) : Type 0 where
  pub os : Os S
  pub view : (addr : ℕ) → S → ControlBlock
  pub store : (addr : ℕ) → ControlBlock → S → S
  pub now : S → ℕ
  pub pause : S → S
  pub self : ℤ
  pub kill : S → Kill

-- A pointer of a segment that has been mapped.
abbrev pub at_addr {ℓ} : {A : Type ℓ} → Option ℕ → (ℕ → A) → A → A
at_addr none f d = d
at_addr (some addr) f d = f addr

module _ {S : Type 0} (host : Host S) where
  -- The destructor of a handle that is not bound: `reset` of its segment.
  abbrev pub drop_segment : Segment → S → S
  drop_segment g s = (reset host.os g s).1

  abbrev pub ready_at : Option ℕ → S → Bool
  ready_at none s = false
  ready_at (some addr) s = (host.view addr s).ready == 1

  -- The rest of an iteration of the loop in `attach`, with `g` the segment of the one before.
  abbrev pub after_open :
      (last : Bool)
      → Segment
      → Result Segment × S
      → (Segment → S → Option (Result Segment × S))
      → Option (Result Segment × S)
  after_open last g (err e, s) again =
      if last then some (err e, drop_segment g s) else again g (host.pause s)
  after_open last g (ok new, s) again =
      let t = drop_segment g s in
      if ready_at new.addr t
      then some (ok new, t)
      else if last
      then some (err timed_out, drop_segment new t)
      else again new (host.pause t)

  -- The loop of `attach`, on fuel; `none` is out of fuel.
  unfoldable pub attach_loop :
      (fuel deadline : ℕ) → List ℕ → Segment → S → Option (Result Segment × S)
  attach_loop zero deadline name g s = none
  attach_loop (suc fuel) deadline name g s =
      after_open (leb deadline (host.now s)) g (open_object host.os name s)
        (attach_loop fuel deadline name)

  abbrev pub bound_at :
      Segment
      → (addr : ℕ) → S
      → Option (Result (Handle × ControlBlock))
      → Option (Result Handle × S)
  bound_at g addr s none = none
  bound_at g addr s (some (err e)) = some (err e, drop_segment g s)
  bound_at g addr s (some (ok (h, c))) = some (ok h, host.store addr c s)

  -- `validate` and `bind`, behind the loop
  abbrev pub checked :
      Binary
      → List Attempt
      → Role
      → Segment
      → (addr : ℕ) → S
      → Option Error
      → Option (Result Handle × S)
  checked b attempts role g addr s (some e) = some (err e, drop_segment g s)
  checked b attempts role g addr s none =
      let c = host.view addr s in
      bound_at g addr s (
        bind (host.kill s) host.self attempts role (record no_handle { seg = g; ctrl = some addr })
          c c)

  abbrev pub joined :
      Binary → List Attempt → Role → Option (Result Segment × S) → Option (Result Handle × S)
  joined b attempts role none = none
  joined b attempts role (some (err e, s)) = some (err e, s)
  joined b attempts role (some (ok g, s)) =
      at_addr g.addr
        (λ addr. checked b attempts role g addr s (validate b (host.view addr s) g.size)) none

  unfoldable pub attach :
      Binary
      → (fuel : ℕ) → List Attempt
      → List ℕ
      → Role
      → (timeout_ms : ℕ) → S
      → Option (Result Handle × S)
  attach b fuel attempts name role timeout_ms s =
      joined b attempts role (attach_loop fuel (host.now s + timeout_ms) name no_handle.seg s)

  -- The destructor: `detach` with the `reset` at its end.
  unfoldable pub leave : Handle → S → S
  leave h s =
      drop_segment h.seg
        (at_addr h.ctrl (λ addr. host.store addr (detach host.self h (host.view addr s)).1 s) s)

  -- The move assignment of a handle, with what `detach` does to the system.
  unfoldable pub assign : (same_object : Bool) → (h o : Handle) → S → Handle × Handle × S
  assign same_object h o s =
      if same_object
      then (h, o, s)
      else let (h', o') =
          swap_with (record h { seg = no_segment; ctrl = none; slots = none; bound = false }) o in
        (h', o', leave h s)

  -- `q.ctrl_->ready.store(1, …)`, behind `bind`
  abbrev pub published :
      Segment
      → (addr : ℕ) → S
      → Option (Result (Handle × ControlBlock))
      → Option (Result Handle × S)
  published g addr s none = none
  published g addr s (some (err e)) = some (err e, drop_segment g s)
  published g addr s (some (ok (h, c))) = some (ok h, host.store addr (record c { ready = 1 }) s)

  abbrev pub written :
      Binary
      → List Attempt
      → (capacity : ℕ) → Role
      → Result Segment × S
      → Option (Result Handle × S)
  written b attempts capacity role (err e, s) = some (err e, s)
  written b attempts capacity role (ok g, s) =
      at_addr g.addr
        (λ addr.
          let c = init_control b (slot_count capacity) g.size in
          let t = host.store addr c s in
          published g addr t (
            bind (host.kill t) host.self attempts role
              (record no_handle { seg = g; ctrl = some addr }) c c))
        none

  abbrev pub sized :
      Binary
      → List Attempt
      → List ℕ
      → (capacity : ℕ) → Role
      → S
      → Result ℕ
      → Option (Result Handle × S)
  sized b attempts name capacity role s (err e) = some (err e, s)
  sized b attempts name capacity role s (ok bytes) =
      written b attempts capacity role (create host.os name bytes s)

  -- `ShmSpscQueue::create`
  unfoldable pub create_queue :
      Binary → List Attempt → List ℕ → (capacity : ℕ) → Role → S → Option (Result Handle × S)
  create_queue b attempts name capacity role s =
      sized b attempts name capacity role s (bytes_needed b (clamp capacity))
