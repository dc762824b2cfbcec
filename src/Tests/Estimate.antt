-- ===== src/Tests/Estimate.antt =====
-- `size`, called by each of the two processes while the other runs.
use shm_spsc.Base.{ℕ, ◌+◌, ◌<◌, ◌≤◌, refl, [], ◌∷◌, length, arith}
use shm_spsc.Layout.{Role}
use shm_spsc.Ring.{next_index, size}
use shm_spsc.Spsc.{latest, store, ConsumerPc, System, begin_push, begin_front, recheck_front}
use shm_spsc.Spsc.Step.{ConsumerStep, by_consumer, Reach, next}
use shm_spsc.Spsc.Estimate.{loaded, size_estimates}
use shm_spsc.Tests.Interleaved.{handle, begun, begun-IsFresh, two_sent, two_sent-Reach}
use shm_spsc.Tests.Whole.{block}

-- The producer has not seen that 7 is gone, the consumer not that 8 is there.
abbrev one_left : System ℕ
one_left = record two_sent {
  read = store 1 begun.read;
  received = 7 ∷ [];
  consumer = record {
    handle = record (handle Role.consumer) { write_idx_cache = 1 };
    pc = ConsumerPc.idle;
    seen = 1;
  };
}

one_left-Reach : Reach begun one_left
unfolding begin_push next_index begin_front recheck_front
one_left-Reach =
    next
      (next
        (next (next two_sent-Reach (by_consumer (ConsumerStep.front refl)))
          (by_consumer (ConsumerStep.recheck 1 refl (omega arith) (omega arith))))
        (by_consumer (ConsumerStep.look refl)))
      (by_consumer (ConsumerStep.pop refl))

size_estimates_example :
    ((k : ℕ)
      → one_left.producer.seen ≤ k
      → k ≤ one_left.read.last
      → let n =
          size one_left.producer.handle
            (loaded block one_left.slots (latest one_left.write) (one_left.read.value k)) in
        (length one_left.sent ≤ length one_left.received + n) × (n < 3))
    × ((k : ℕ)
        → one_left.consumer.seen ≤ k
        → k ≤ one_left.write.last
        → let n =
            size one_left.consumer.handle
              (loaded block one_left.slots (one_left.write.value k) (latest one_left.read)) in
          (length one_left.received + n ≤ length one_left.sent) × (n < 3))
size_estimates_example = size_estimates begun-IsFresh block one_left one_left-Reach
