-- ===== src/Spsc/ProduceN.antt =====
-- include/shmspsc/ShmSpscQueue.h: `push_n` up to its copies, and the invariant.
use shm_spsc.Base.{
  ℕ, ◌+◌, ◌-◌, ◌<◌, ◌≤◌, ◌≡◌, refl, sym, ap, inl, inr, Bool-cases, List, [], arith, length, take,
  length-take_of_le, ◌==◌, ltb, min,
}
use native.Mathlib.Nat.{add-zero}
use shm_spsc.Ring.{Handle, free_slots}
use shm_spsc.Spsc.{latest, ProducerPc, System, begin_push_n, recheck_push_n, fill}
use shm_spsc.Spsc.Places.{slot_of, slot_of-lt, skip_index-slot_of, free_slots-slot_of}
use shm_spsc.Spsc.Runs.{run_writes_lem}
use shm_spsc.Spsc.Invariant.{ProducerAt, ProducerInv, Inv}
use shm_spsc.Spsc.Produce.{some_slot, own_index, at_pc, loaded, popped-le}

module _ {ℓ} {A : Type ℓ} {cap : ℕ} {s : System A} (v : Inv cap s) where
  abbrev w : ℕ
  w = v.wt s.write.last

  pub free_lem :
      (k : ℕ)
      → k ≤ s.read.last
      → w < v.rt k + cap
      → free_slots cap (slot_of cap w) (slot_of cap (v.rt k)) ≡ cap - 1 - (w - v.rt k)
  free_lem k h near = free_slots-slot_of cap (some_slot v) v.small (v.rt k) w (popped-le v k h) near

  -- The copies of `push_n`, for a count that there is room for.
  batch_at :
      (src : List A) (m lim : ℕ) (h : Handle)
      → v.written ≡ []
      → h.capacity ≡ cap
      → m ≤ length src
      → m < cap
      → w + m < lim
      → ProducerAt cap w lim v.written (fill src m (slot_of cap w) h)
  unfolding fill
  batch_at src m lim h none_yet same given short fits =
      let len = length-take_of_le m src given in
      rw
        (
          same,
          run_writes_lem cap src m (slot_of cap w) v.small (slot_of-lt cap (some_slot v) w) short
              given,
          skip_index-slot_of cap (some_slot v) v.small w m short,
        )
        (
          take m src,
          rw none_yet,
          rw (none_yet, add-zero),
          ap (λ k. slot_of cap (w + k)) (sym len),
          omega arith,
        )

  pub begin_push_n-Inv :
      (src : List A) (n : ℕ)
      → n ≤ length src
      → s.producer.pc ≡ ProducerPc.idle
      → ProducerInv cap w s.read v.rt v.written (begin_push_n src n (latest s.write) s.producer)
  unfolding begin_push_n
  begin_push_n-Inv src n given e =
      let none_yet = rw e at v.producer.at in
      let free = free_lem s.producer.seen v.producer.seen_in v.producer.ahead in
      let known : free_slots s.producer.handle.capacity (slot_of cap w)
            s.producer.handle.read_idx_cache
          ≡ cap - 1 - (w - v.rt s.producer.seen) =
        rw (v.producer.same, v.producer.cached) free in
      rw ((own_index v), known)
        (elim (Bool-cases (n == 0)) [
          | inl z ↦ rw z v.producer
          | inr any ↦ elim (Bool-cases (ltb (cap - 1 - (w - v.rt s.producer.seen)) n)) [
            | inl short ↦ rw (any, short) (at_pc v _ (none_yet, refl, given))
            | inr enough ↦
                rw (any, enough)
                  (at_pc v _ (
                    batch_at src (min n (cap - 1 - (w - v.rt s.producer.seen))) _ s.producer.handle
                      none_yet v.producer.same (omega arith) (omega (arith, v.room))
                      (omega (
                        arith,
                        v.producer.ahead,
                        v.room,
                        popped-le v s.producer.seen v.producer.seen_in,
                      ))))
          ]
        ])

  pub recheck_push_n-Inv :
      (src : List A) (n i k : ℕ)
      → s.producer.pc ≡ ProducerPc.recounting src n i
      → s.producer.seen ≤ k
      → k ≤ s.read.last
      → ProducerInv cap w s.read v.rt v.written
          (recheck_push_n src n i k (s.read.value k) s.producer)
  unfolding recheck_push_n
  recheck_push_n-Inv src n i k e newer known =
      let (none_yet, ei, given) = rw e at v.producer.at in
      let near : w < v.rt k + cap =
        omega (arith, v.producer.ahead, v.read_index.grows s.producer.seen k newer known) in
      let free : free_slots s.producer.handle.capacity i (s.read.value k) ≡ cap - 1 - (w - v.rt k) =
        rw (v.producer.same, ei, v.read_index.placed k known) (free_lem k known near) in
      rw free (elim (Bool-cases ((cap - 1 - (w - v.rt k)) == 0)) [
        | inl full ↦ rw full (loaded v k ProducerPc.idle newer known none_yet)
        | inr open_slots ↦ rw open_slots (
            loaded v k _ newer known (
              rw ei (
                batch_at src (min n (cap - 1 - (w - v.rt k))) _
                  (record s.producer.handle { read_idx_cache = s.read.value k }) none_yet
                  v.producer.same (omega arith) (omega (arith, v.room))
                  (omega (arith, v.room, popped-le v k known)))))
      ])
