-- ===== src/Ring/Observers.antt =====
-- `size`, `empty` and the assertion of `pop` of include/shmspsc/ShmSpscQueue.h, run whole.
use shm_spsc.Base.{ℕ, ◌≡◌, sym, ap, Option, some, ◌==◌, eq→==, ne→==, arith, length}
use native.Mathlib.Decide.{ℕ_discrete}
use shm_spsc.Ring.{Handle, Shared, front, pop, size, empty, pop_debug}
use shm_spsc.Ring.Index.{used_slots_lem, used-eq-zero, used-ne-zero}
use shm_spsc.Ring.Invariant.{IsRing, IsReader, contents, count, length-contents}
use shm_spsc.Ring.Single

module _ {ℓ} {A : Type ℓ} {s : Shared A} (v : IsRing s) where
  -- With no call of the peer between its two loads, `size` is the length of the queue.
  pub size_lem : (h : Handle) → h.capacity ≡ s.ctrl.capacity → size h s ≡ length (contents s)
  unfolding size
  size_lem h e =
      rw (e, length-contents v)
        (used_slots_lem s.ctrl.capacity s.ctrl.write_idx s.ctrl.read_idx (omega (arith, v.small))
          v.write_in v.read_in)

  pub empty_lem : empty s ≡ (length (contents s) == 0)
  unfolding empty
  empty_lem = rw (length-contents v) (elim (ℕ_discrete (count s.ctrl) 0) [
    | yes dry ↦
        rw (eq→== _ _ dry) (eq→== _ _ (used-eq-zero s.ctrl.capacity _ _ v.write_in v.read_in dry))
    | no wet ↦ rw (ne→== _ _ wet) (
        ne→== _ _ (λ e.
          used-ne-zero s.ctrl.capacity s.ctrl.write_idx _ v.write_in v.read_in (omega arith)
            (sym e)))
  ])

  -- The assertion of `pop` does not fire behind a `front` that returned a slot, and the release
  -- build does the same.
  pub pop_debug-front :
      {h : Handle} (i : ℕ)
      → IsReader h s.ctrl
      → (front h s).0 ≡ some i
      → pop_debug (front h s).1 s ≡ some (pop (front h s).1 s)
  unfolding pop_debug
  pop_debug-front {h} i k e = elim (ℕ_discrete (count s.ctrl) 0) [
    | yes dry ↦ cc (ap (λ (t : Option ℕ × Handle). t.0) (Single.front_empty v k dry))
    | no ne ↦ rw (
        ne→== s.ctrl.write_idx s.ctrl.read_idx (λ q.
          used-ne-zero s.ctrl.capacity s.ctrl.write_idx _ v.write_in v.read_in (omega arith)
            (sym q)))
  ]
