-- ===== src/Memory/Accesses.antt =====
-- The bytes that the two processes of include/shmspsc/ShmSpscQueue.h access while they run, each by
-- the pointers of its own handle, into its own mapping of the segment.
use shm_spsc.Base.{ℕ, ◌<◌, ◌≡◌, List, some, get_elem?}
use shm_spsc.Layout.{Binary}
use shm_spsc.Ring.{Handle}
use shm_spsc.Spsc.{System}
use shm_spsc.Spsc.Places.{slot_of-lt}
use shm_spsc.Spsc.Step.{Step, by_producer, by_consumer, fresh, Reach, here, next}
use shm_spsc.Spsc.Invariant.{Inv}
use shm_spsc.Spsc.Pending.{writes, reads, writes_at, reads_at}
use shm_spsc.Spsc.Safety.{IsFresh, Reach-Inv, some_slot, disjoint}
use shm_spsc.Owners.Ready.{step-producer, step-consumer}
use shm_spsc.Memory.{IsMapped, IsInside}
use shm_spsc.Memory.Slots.{
  Apart, elements-Apart, slot-IsInside, SamePointers, same, SamePointers-trans,
  SamePointers-IsMapped, ProducerStep-same, ConsumerStep-same,
}

module _ {ℓ} {A : Type ℓ} where
  -- Whatever the processes do, their pointers stay.
  abbrev Keeps : Handle → Handle → System A → Type 0
  Keeps p c s = SamePointers p s.producer.handle × SamePointers c s.consumer.handle

  Step-Keeps : (p c : Handle) {s t : System A} → Step s t → Keeps p c s → Keeps p c t
  Step-Keeps p c (by_producer m) (kp, kc) =
      (SamePointers-trans kp (ProducerStep-same m), rw (step-consumer m) kc)
  Step-Keeps p c (by_consumer m) (kp, kc) =
      (rw (step-producer m) kp, SamePointers-trans kc (ConsumerStep-same m))

  Reach-Keeps :
      {slots : List A} {p c : Handle} {s : System A} → Reach (fresh slots p c) s → Keeps p c s
  Reach-Keeps here = (same, same)
  Reach-Keeps {p} {c} (next reach m) = Step-Keeps p c m (Reach-Keeps reach)

module _ {ℓ} {A : Type ℓ} {cap : ℕ} {s : System A} (v : Inv cap s) where
  write_lt : (m i : ℕ) → get_elem? (writes s.producer.pc) m ≡ some i → i < cap
  write_lt m i h =
      let (q, e, _, _) =
        writes_at cap (some_slot v) (v.wt s.write.last) _ v.written s.producer.pc m i v.producer.at
          h in
      rw e (slot_of-lt cap (some_slot v) q)

  read_lt : (n j : ℕ) → get_elem? (reads s.consumer.pc) n ≡ some j → j < cap
  read_lt n j h =
      let (q, e, _, _) =
        reads_at cap (some_slot v) (v.rt s.read.last) _ s.sent s.consumer.pc n j v.consumer.at h in
      rw e (slot_of-lt cap (some_slot v) q)

module _ {ℓ} {A : Type ℓ} (b : Binary) (offset cap : ℕ) {slots : List A} {p c : Handle}
    (f : IsFresh cap slots p c) (base base' : ℕ) (mine : IsMapped b base offset cap p)
    (yours : IsMapped b base' offset cap c) where
  -- Where the handles of the two processes have all slots in their mappings, from the same offset
  -- on: in every reachable state each slot that the producer is still to write and each that the
  -- consumer may still read lies in the mapping of the process, and no byte of the one, counted
  -- from the start of the segment, is one of the other.
  pub accesses_in_bounds :
      (s : System A)
      → Reach (fresh slots p c) s
      → ((m i : ℕ)
          → get_elem? (writes s.producer.pc) m ≡ some i
          → IsInside b base offset s.producer.handle i)
        × ((n j : ℕ)
            → get_elem? (reads s.consumer.pc) n ≡ some j
            → IsInside b base' offset s.consumer.handle j)
        × ((m n i j : ℕ)
            → get_elem? (writes s.producer.pc) m ≡ some i
            → get_elem? (reads s.consumer.pc) n ≡ some j
            → Apart b.elem_size i j)
  accesses_in_bounds s reach =
      let v = Reach-Inv f reach in
      let (kp, kc) = Reach-Keeps reach in
      (
        λ m i h. slot-IsInside (SamePointers-IsMapped kp mine) i (write_lt v m i h),
        λ n j h. slot-IsInside (SamePointers-IsMapped kc yours) j (read_lt v n j h),
        λ m n i j h h'. elements-Apart b.elem_size i j (disjoint v m n i j h h'),
      )
