-- ===== src/Spsc/Estimate.antt =====
-- include/shmspsc/ShmSpscQueue.h: `size` and `empty`, called by one of the two processes while the
-- other runs on. The load of the own index returns its last store, that of the peer's any store that
-- is no older than the last one seen. The state is that of the second load: the own index does not
-- move while its process is in the call, and the stores that the peer's had at the first it has still.
use shm_spsc.Base.{ℕ, ◌+◌, ◌-◌, ◌<◌, ◌≤◌, ◌≡◌, List, arith, length}
use shm_spsc.Layout.{ControlBlock}
use shm_spsc.Ring.{Handle, Shared, size, used_slots}
use shm_spsc.Spsc.{latest, System}
use shm_spsc.Spsc.Places.{used_slots-slot_of}
use shm_spsc.Spsc.Step.{fresh, Reach}
use shm_spsc.Spsc.Invariant.{Inv}
use shm_spsc.Spsc.Safety.{IsFresh, Reach-Inv, length-received, some_slot, lead_lt}

module _ {ℓ} {A : Type ℓ} {cap : ℕ} {s : System A} (v : Inv cap s) where
  producer_size :
      (k : ℕ)
      → s.producer.seen ≤ k
      → k ≤ s.read.last
      → used_slots s.producer.handle.capacity (latest s.write) (s.read.value k)
        ≡ length s.sent - v.rt k
  producer_size k newer known =
      let own = v.write_index.placed s.write.last (omega arith) in
      let old = v.read_index.placed k known in
      let near = v.read_index.grows s.producer.seen k newer known in
      let up = v.read_index.grows k s.read.last known (omega arith) in
      let seen =
        v.write_index.grows s.consumer.seen s.write.last v.consumer.seen_in (omega arith) in
      rw (v.producer.same, own, old, v.published)
        (used_slots-slot_of cap (some_slot v) v.small (v.rt k) (v.wt s.write.last)
          (omega (arith, up, v.consumer.behind, seen)) (omega (arith, near, v.producer.ahead)))

  consumer_size :
      (k : ℕ)
      → s.consumer.seen ≤ k
      → k ≤ s.write.last
      → (used_slots s.consumer.handle.capacity (s.write.value k) (latest s.read)
          ≡ v.wt k - v.rt s.read.last)
        × (v.rt s.read.last ≤ v.wt k)
        × (v.wt k ≤ length s.sent)
  consumer_size k newer known =
      let own = v.read_index.placed s.read.last (omega arith) in
      let old = v.write_index.placed k known in
      let least = v.write_index.grows s.consumer.seen k newer known in
      let most = v.write_index.grows k s.write.last known (omega arith) in
      (
        rw (v.consumer.same, own, old)
            (used_slots-slot_of cap (some_slot v) v.small (v.rt s.read.last) (v.wt k)
              (omega (arith, least, v.consumer.behind))
              (omega (arith, most, lead_lt v, v.published))),
        omega (arith, least, v.consumer.behind),
        omega (arith, most, v.published),
      )

-- The shared memory as the two loads of the indices find it.
abbrev pub loaded {ℓ} : {A : Type ℓ} → ControlBlock → List A → (w r : ℕ) → Shared A
loaded ctrl slots w r = record { ctrl = record ctrl { write_idx = w; read_idx = r }; slots = slots }

module _ {ℓ} {A : Type ℓ} {cap : ℕ} {slots : List A} {p c : Handle}
    (f : IsFresh cap slots p c) where
  -- In every reachable state, whatever else the control block holds, `size` called by the producer
  -- returns no fewer than the elements that are in the queue, called by the consumer no more, and
  -- either way fewer than `capacity_`, for each store of the peer's index, no older than the last one
  -- seen, that its load may return. A call by neither of the two is not covered.
  pub size_estimates :
      (ctrl : ControlBlock) (s : System A)
      → Reach (fresh slots p c) s
      → ((k : ℕ)
          → s.producer.seen ≤ k
          → k ≤ s.read.last
          → let n =
              size s.producer.handle (loaded ctrl s.slots (latest s.write) (s.read.value k)) in
            (length s.sent ≤ length s.received + n) × (n < cap))
        × ((k : ℕ)
            → s.consumer.seen ≤ k
            → k ≤ s.write.last
            → let n =
                size s.consumer.handle (loaded ctrl s.slots (s.write.value k) (latest s.read)) in
              (length s.received + n ≤ length s.sent) × (n < cap))
  unfolding size
  size_estimates ctrl s reach =
      let v = Reach-Inv f reach in
      (
        λ k newer known.
            let e = producer_size v k newer known in
            let up = v.read_index.grows k s.read.last known (omega arith) in
            let near = v.read_index.grows s.producer.seen k newer known in
            (
              omega (arith, e, up, length-received v),
              omega (arith, e, near, v.producer.ahead, v.published, v.room),
            ),
        λ k newer known.
            let (e, least, most) = consumer_size v k newer known in
            (
              omega (arith, e, least, most, length-received v),
              omega (arith, e, most, lead_lt v, v.room),
            ),
      )
