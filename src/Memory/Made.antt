-- ===== src/Memory/Made.antt =====
-- The slots of a handle that `create` of include/shmspsc/ShmSpscQueue.h returns.
use shm_spsc.Base.{
  ℕ, ◌+◌, ◌*◌, ◌<◌, ◌≤◌, ◌≡◌, refl, sym, ap, ◌∙◌, inl, inr, Option, none, some, List, ◌++◌, arith,
  size_max, u32,
}
use native.Mathlib.Nat.{mod-eq_of_lt}
use mathlib.Core.Path.{subst}
use shm_spsc.Base.Results.{Error, Result, ok, err}
use shm_spsc.Layout.{Role, Binary, ControlBlock, sizeof_control, bytes_needed}
use shm_spsc.Layout.Bounds.{true_size, bytes_needed_exact, product_le, line_le}
use shm_spsc.Ring.{Segment, Handle}
use shm_spsc.Segment.{create}
use shm_spsc.Segment.Laws.{Resources}
use shm_spsc.Segment.Cleanup.{Created, create_lem}
use shm_spsc.Claim.{Attempt}
use shm_spsc.Attach.{no_handle, clamp, slot_count, init_control, load_members}
use shm_spsc.Connect.{Host, published, written, sized, create_queue}
use shm_spsc.Connect.Held.{HostLaws, owned}
use shm_spsc.Connect.Made.{create_queue_lem}
use shm_spsc.Connect.Sound.{at_sound}
use shm_spsc.Memory.{IsMapped}
use shm_spsc.Memory.Joined.{filled, filled-capacity, filled-read, filled-write, bind-handle}

ok-inj : {m n : ℕ} → ok m ≡ ok n → m ≡ n
ok-inj h = cc

ok-err : {n : ℕ} {e : Error} → ok n ≡ err e → ⊥
ok-err h = cc

some-inj {ℓ} : {B : Type ℓ} {a c : B} → some a ≡ some c → a ≡ c
some-inj e = cc

handle-inj : {a c : Handle} → ok a ≡ ok c → a ≡ c
handle-inj e = cc

clamp_word : (capacity : ℕ) → capacity ≤ size_max → clamp capacity ≤ size_max
clamp_word capacity h = ground arith

module _ (b : Binary) (capacity bytes : ℕ) (word : capacity ≤ size_max) (solid : 0 < b.elem_size)
    (e : bytes_needed b (clamp capacity) ≡ ok bytes) where
  bytes_lem : (bytes ≡ true_size b (clamp capacity)) × (true_size b (clamp capacity) ≤ size_max)
  bytes_lem = elim (bytes_needed_exact b (clamp capacity) solid (clamp_word capacity word)) [
    | inl (q, le) ↦ (ok-inj (sym e ∙ q), le)
    | inr (q, lt) ↦ absurd (ok-err (sym e ∙ q))
  ]

  pub slot_count_exact : slot_count capacity ≡ clamp capacity + 1
  unfolding slot_count
  slot_count_exact =
      let (_, le) = bytes_lem in
      mod-eq_of_lt
        (omega (arith, le, product_le b (clamp capacity) solid (clamp_word capacity word)))

  -- A handle that is filled from the block of `create`, over a mapping of the object.
  pub made-IsMapped :
      (g : Segment) (base : ℕ) (role : Role) (total : ℕ)
      → g.addr ≡ some base
      → g.size ≡ bytes
      → IsMapped b base
          (sizeof_control b)
          (slot_count capacity)
          (filled g base role (init_control b (slot_count capacity) total))
  unfolding init_control load_members
  made-IsMapped g base role total at size =
      let small : u32 (sizeof_control b) ≡ sizeof_control b =
        mod-eq_of_lt (omega (arith, line_le b.platform)) in
      let (e', le) = bytes_lem in
      record {
        starts = at;
        slots = ap (λ k. some (base + k)) small;
        room = omega (arith, size, e', ap (λ k. k * b.elem_size) slot_count_exact);
      }

pub init_control-offset :
    (b : Binary) (slots bytes : ℕ) → (init_control b slots bytes).slots_offset ≡ sizeof_control b
unfolding init_control
init_control-offset b slots bytes = mod-eq_of_lt (omega (arith, line_le b.platform))

pub init_control-capacity :
    (b : Binary) (slots bytes : ℕ) → (init_control b slots bytes).capacity ≡ slots
unfolding init_control
init_control-capacity b slots bytes = refl

pub init_control-indices :
    (b : Binary) (slots bytes : ℕ)
    → ((init_control b slots bytes).read_idx ≡ 0) × ((init_control b slots bytes).write_idx ≡ 0)
unfolding init_control
init_control-indices b slots bytes = (refl, refl)

module _ (b : Binary) (capacity : ℕ) where
  -- The handle has all its slots behind the control block, in its mapping, and its caches are those of
  -- an empty queue.
  abbrev pub Placed : Handle → Type 0
  Placed h =
      (base : ℕ) × IsMapped b base (sizeof_control b) (clamp capacity + 1) h
      × (h.capacity ≡ clamp capacity + 1)
      × (h.read_idx_cache ≡ 0)
      × (h.write_idx_cache ≡ 0)

module _ {S : Type 0} (host : Host S) (r : Resources S) (name : List ℕ)
    (laws : HostLaws host r name) (b : Binary) (attempts : List Attempt) (capacity : ℕ)
    (role : Role) (word : capacity ≤ size_max) (solid : 0 < b.elem_size) where
  abbrev block_of : Segment → ControlBlock
  block_of g = init_control b (slot_count capacity) g.size

  published_lem :
      (g : Segment) (base bytes : ℕ) (t u : S) (h : Handle)
      → bytes_needed b (clamp capacity) ≡ ok bytes
      → g.addr ≡ some base
      → g.size ≡ bytes
      → (o : Option (Result (Handle × ControlBlock)))
      → ((k : Handle) (c : ControlBlock)
          → o ≡ some (ok (k, c))
          → k ≡ filled g base role (block_of g))
      → published host g base t o ≡ some (ok h, u)
      → Placed b capacity h
  published_lem g base bytes t u h fits at size none made e = absurd (cc)
  published_lem g base bytes t u h fits at size (some (err x)) made e = absurd (cc)
  published_lem g base bytes t u h fits at size (some (ok (k, c))) made e =
      let same = sym (handle-inj (ap (λ q. q.0) (some-inj e))) ∙ made k c refl in
      let n = slot_count_exact b capacity bytes word solid fits in
      let init = init_control-indices b (slot_count capacity) g.size in
      let m = made-IsMapped b capacity bytes word solid fits g base role g.size at size in
      rw same (
        base,
        subst (λ k. IsMapped b base (sizeof_control b) k (filled g base role (block_of g))) n m,
        filled-capacity b g base role (block_of g)
            ∙ init_control-capacity b (slot_count capacity) g.size
            ∙ n,
        filled-read g base role (block_of g) ∙ init.0,
        filled-write g base role (block_of g) ∙ init.1,
      )

  written_lem :
      (bytes : ℕ) (s u : S) (h : Handle)
      → bytes_needed b (clamp capacity) ≡ ok bytes
      → (o : Result Segment × S) → Created r name bytes s o
      → written host b attempts capacity role o ≡ some (ok h, u)
      → Placed b capacity h
  written_lem bytes s u h fits (err x, t) made e = absurd (cc)
  written_lem bytes s u h fits (ok g, t) (f, p, addr, eq, m) e =
      let (base, at, e') = at_sound host g.addr _ _ e in
      let c = block_of g in
      let v = host.store base c t in
      published_lem g base bytes v u h fits at (ap (λ (k : Segment). k.size) eq) _
        (λ k c' q.
          bind-handle (host.kill v) host.self attempts role
            (record no_handle { seg = g; ctrl = some base }) k c c c' q)
        e'

  sized_lem :
      (s u : S) (h : Handle) (o : Result ℕ)
      → bytes_needed b (clamp capacity) ≡ o
      → sized host b attempts name capacity role s o ≡ some (ok h, u)
      → Placed b capacity h
  sized_lem s u h (err x) fits e = absurd (cc)
  sized_lem s u h (ok bytes) fits e =
      written_lem bytes s u h fits (create host.os name bytes s)
        (create_lem host.os r name laws.os_laws bytes s) e

  sized_fits :
      (s u : S) (h : Handle) (o : Result ℕ)
      → sized host b attempts name capacity role s o ≡ some (ok h, u)
      → (bytes : ℕ) × (o ≡ ok bytes)
  sized_fits s u h (err x) e = absurd (cc)
  sized_fits s u h (ok bytes) e = (bytes, refl)

  -- A `create` that returns has accepted its size, and none of its sums has wrapped.
  pub create-fits :
      (s u : S) (h : Handle)
      → create_queue host b attempts name capacity role s ≡ some (ok h, u)
      → (true_size b (clamp capacity) ≤ size_max) × (slot_count capacity ≡ clamp capacity + 1)
  unfolding create_queue
  create-fits s u h e =
      let (bytes, fits) = sized_fits s u h (bytes_needed b (clamp capacity)) e in
      (
        (bytes_lem b capacity bytes word solid fits).1,
        slot_count_exact b capacity bytes word solid fits,
      )

  -- By the laws of the system, a handle that `create` returns, for elements of at least a byte, has
  -- one slot more than the capacity asked for (at least two), all in the mapping that has been made,
  -- and behind the control block; both its index caches are 0.
  pub create_in_bounds :
      (s u : S) (h : Handle)
      → create_queue host b attempts name capacity role s ≡ some (ok h, u)
      → Placed b capacity h × (r.maps u ≡ owned h.seg ++ r.maps s)
  unfolding create_queue
  create_in_bounds s u h e =
      let (_, maps, _, _, _, _) =
        create_queue_lem host r name laws b attempts capacity role s (ok h, u) e in
      (sized_lem s u h (bytes_needed b (clamp capacity)) refl e, maps)
