-- ===== src/Connect/Ends.antt =====
-- The deadline of `attach` in include/shmspsc/ShmSpscQueue.h.
use shm_spsc.Base.{
  ℕ, zero, suc, ◌+◌, ◌<◌, ◌≤◌, ◌≡◌, refl, Bool, true, false, Option, none, some, List, leb, arith,
  Bool-cases, inl, inr, ◌&&◌,
}
use shm_spsc.Base.Int.{ℤ, is_positive}
use shm_spsc.Base.Results.{Error, Result, ok, err}
use shm_spsc.Ring.{Segment}
use shm_spsc.Segment.{
  Answer, OpenMode, validate_name, mapped, map_and_close, unless_bad, measured, opened, open_object,
  reset, unmapped, nonempty, size_of,
}
use shm_spsc.Connect.{Host, ready_at, drop_segment, after_open, attach_loop}

-- The clock never goes back over a system call, and `usleep(1000)` sleeps at least a millisecond.
pub record ClockLaws {S : Type 0} (host : Host S) : Type 0 where
  pub over_open :
      (name : List ℕ) (m : OpenMode) (s : S) → host.now s ≤ host.now (host.os.shm_open name m s).1
  pub over_unlink : (name : List ℕ) (s : S) → host.now s ≤ host.now (host.os.shm_unlink name s)
  pub over_stat : (fd : ℕ) (s : S) → host.now s ≤ host.now (host.os.fstat fd s).1
  pub over_mmap : (size fd : ℕ) (s : S) → host.now s ≤ host.now (host.os.mmap size fd s).1
  pub over_munmap : (addr size : ℕ) (s : S) → host.now s ≤ host.now (host.os.munmap addr size s)
  pub over_close : (fd : ℕ) (s : S) → host.now s ≤ host.now (host.os.close fd s)
  pub over_pause : (s : S) → host.now s < host.now (host.pause s)

module _ {S : Type 0} (host : Host S) (clock : ClockLaws host) where
  mapped_later :
      (fd : ℕ) (name : List ℕ) (bytes : ℕ) (o : Answer ℕ × S)
      → host.now o.1 ≤ host.now (mapped host.os fd name bytes false o).1
  mapped_later fd name bytes (Answer.failed e, s) = clock.over_close fd s
  mapped_later fd name bytes (Answer.done addr, s) = clock.over_close fd s

  measured_later :
      (fd : ℕ) (name : List ℕ) (o : Answer ℤ × S)
      → host.now o.1 ≤ host.now (measured host.os fd name o).1
  unfolding map_and_close
  measured_later fd name (Answer.failed e, s) = clock.over_close fd s
  measured_later fd name (Answer.done n, s) = elim (Bool-cases (is_positive n)) [
    | inl big ↦
        let size = size_of host.os n in
        rw big (
          omega
            (arith, clock.over_mmap size fd s, mapped_later fd name size (host.os.mmap size fd s)))
    | inr small ↦ rw small (clock.over_close fd s)
  ]

  opened_later :
      (name : List ℕ) (o : Answer ℕ × S) → host.now o.1 ≤ host.now (opened host.os name o).1
  opened_later name (Answer.failed e, s) = omega arith
  opened_later name (Answer.done fd, s) =
      omega (arith, clock.over_stat fd s, measured_later fd name (host.os.fstat fd s))

  unless_bad_later :
      (e : Option Error) (o : Result Segment × S) (s : S)
      → host.now s ≤ host.now o.1
      → host.now s ≤ host.now (unless_bad host.os e o s).1
  unless_bad_later none o s h = h
  unless_bad_later (some e) o s h = omega arith

  open_later : (name : List ℕ) (s : S) → host.now s ≤ host.now (open_object host.os name s).1
  unfolding open_object
  open_later name s = unless_bad_later (validate_name name) _ s (
      omega (
        arith,
        clock.over_open name OpenMode.read_write s,
        opened_later name (host.os.shm_open name OpenMode.read_write s),
      ))

  unmapped_later :
      (a : Option ℕ) (size : ℕ) (s : S) → host.now s ≤ host.now (unmapped host.os a size s)
  unmapped_later none size s = omega arith
  unmapped_later (some addr) size s = clock.over_munmap addr size s

  drop_later : (g : Segment) (s : S) → host.now s ≤ host.now (drop_segment host g s)
  unfolding reset
  drop_later g s =
      let first = unmapped_later g.addr g.size s in
      let t = unmapped host.os g.addr g.size s in
      elim (Bool-cases (g.owner && nonempty host.os g.name)) [
        | inl owns ↦ rw owns (omega (arith, first, clock.over_unlink g.name t))
        | inr other ↦ rw other first
      ]

  -- The rest of an iteration ends the loop, or it goes round at a later time.
  round :
      (last : Bool) (g : Segment) (o : Result Segment × S)
      (again : Segment → S → Option (Result Segment × S))
      → (last ≡ false
          → (g' : Segment) (t : S) → host.now o.1 < host.now t
          → (r : Result Segment × S) × (again g' t ≡ some r))
      → (r : Result Segment × S) × (after_open host last g o again ≡ some r)
  round true g (err e, s) again go = (_, refl)
  round false g (err e, s) again go = go refl g (host.pause s) (clock.over_pause s)
  round true g (ok new, s) again go =
      elim (Bool-cases (ready_at host new.addr (drop_segment host g s))) [
        | inl up ↦ rw up (_, refl)
        | inr down ↦ rw down (_, refl)
      ]
  round false g (ok new, s) again go =
      let t = drop_segment host g s in
      elim (Bool-cases (ready_at host new.addr t)) [
        | inl up ↦ rw up (_, refl)
        | inr down ↦
            rw down (go refl new (host.pause t) (omega (arith, drop_later g s, clock.over_pause t)))
      ]

  -- By the laws of the clock the loop of `attach` ends within as many iterations as there are
  -- milliseconds to its deadline, and one more.
  pub attach_loop_ends :
      (fuel deadline : ℕ) (name : List ℕ) (g : Segment) (s : S)
      → deadline < host.now s + fuel
      → 0 < fuel
      → (r : Result Segment × S) × (attach_loop host fuel deadline name g s ≡ some r)
  unfolding attach_loop
  attach_loop_ends zero deadline name g s enough some_fuel = absurd (omega arith)
  attach_loop_ends (suc fuel) deadline name g s enough some_fuel =
      round (leb deadline (host.now s)) g (open_object host.os name s)
        (attach_loop host fuel deadline name)
        (λ early g' t moved.
          let before = not_leb deadline (host.now s) early in
          attach_loop_ends fuel deadline name g' t (omega (arith, open_later name s, moved))
            (omega (arith, open_later name s, moved, before)))
    where
      not_leb : (a b : ℕ) → leb a b ≡ false → b < a
      not_leb a b e = ground arith
