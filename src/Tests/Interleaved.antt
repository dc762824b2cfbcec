-- ===== src/Tests/Interleaved.antt =====
-- Two processes on a ring of three slots.
use shm_spsc.Base.{
  ℕ, suc, ◌+◌, ◌<◌, ◌≡◌, ◌≢◌, ◌↔◌, refl, some, List, [], ◌∷◌, length, take, get_elem?, true, arith,
}
use shm_spsc.Layout.{Role}
use shm_spsc.Ring.{Handle, next_index}
use shm_spsc.Segment.{no_segment}
use shm_spsc.Spsc.{
  latest, store, ProducerPc, ConsumerPc, System, begin_push, recheck_push, begin_front,
  recheck_front,
}
use shm_spsc.Spsc.Step.{
  ProducerStep, ConsumerStep, by_producer, by_consumer, fresh, Reach, here, next,
}
use shm_spsc.Spsc.Safety.{IsFresh, fifo, bounded, no_race}
use shm_spsc.Spsc.Answers.{full_iff, empty_iff, front_pointer}
use shm_spsc.Spsc.Ranks.{push_rank, pop_rank}
use shm_spsc.Spsc.Progress.{push_wait_free, pop_wait_free}

abbrev pub handle : Role → Handle
handle role = record {
  seg = no_segment;
  ctrl = some 4096;
  slots = some 4352;
  capacity = 3;
  role = role;
  bound = true;
  read_idx_cache = 0;
  write_idx_cache = 0;
}

abbrev pub slots : List ℕ
slots = 0 ∷ 0 ∷ 0 ∷ []

abbrev pub begun : System ℕ
begun = fresh slots (handle Role.producer) (handle Role.consumer)

pub begun-IsFresh : IsFresh 3 slots (handle Role.producer) (handle Role.consumer)
begun-IsFresh = record {
  room = omega arith;
  small = omega arith;
  whole = omega arith;
  producer_capacity = refl;
  consumer_capacity = refl;
  read_cached = refl;
  write_cached = refl;
}

-- `try_push(7)`, complete
abbrev pub one_sent : System ℕ
one_sent = record begun { slots = 7 ∷ 0 ∷ 0 ∷ []; write = store 1 begun.write; sent = 7 ∷ [] }

one_sent-Reach : Reach begun one_sent
unfolding begin_push next_index
one_sent-Reach =
    next
      (next (next here (by_producer (ProducerStep.push 7 refl)))
        (by_producer (ProducerStep.copy refl)))
      (by_producer (ProducerStep.publish refl))

-- `try_push(8)` before its copy, while the consumer holds the pointer to 7
abbrev pub both_busy : System ℕ
both_busy = record one_sent {
  producer = record {
    handle = handle Role.producer;
    pc = ProducerPc.filling ((1, 8) ∷ []) (8 ∷ []) 2;
    seen = 0;
  };
  consumer = record {
    handle = record (handle Role.consumer) { write_idx_cache = 1 };
    pc = ConsumerPc.holding 0;
    seen = 1;
  };
}

pub both_busy-Reach : Reach begun both_busy
unfolding begin_push next_index begin_front recheck_front
both_busy-Reach =
    next
      (next (next one_sent-Reach (by_producer (ProducerStep.push 8 refl)))
        (by_consumer (ConsumerStep.front refl)))
      (by_consumer (ConsumerStep.recheck 1 refl (omega arith) (omega arith)))

-- 7 has been read and popped, and 8 is still to be copied.
abbrev one_got : System ℕ
one_got = record both_busy {
  read = store 1 begun.read;
  received = 7 ∷ [];
  consumer = record both_busy.consumer { pc = ConsumerPc.idle };
}

one_got-Reach : Reach begun one_got
unfolding next_index
one_got-Reach =
    next (next both_busy-Reach (by_consumer (ConsumerStep.look refl)))
      (by_consumer (ConsumerStep.pop refl))

-- Two sent; the third `try_push` is about to load the read index.
abbrev pub two_sent : System ℕ
two_sent = record begun {
  slots = 7 ∷ 8 ∷ 0 ∷ [];
  write = store 2 (store 1 begun.write);
  sent = 7 ∷ 8 ∷ [];
  producer = record { handle = handle Role.producer; pc = ProducerPc.checking 9 2 0; seen = 0 };
}

pub two_sent-Reach : Reach begun two_sent
unfolding begin_push next_index
two_sent-Reach =
    next
      (next
        (next (next one_sent-Reach (by_producer (ProducerStep.push 8 refl)))
          (by_producer (ProducerStep.copy refl)))
        (by_producer (ProducerStep.publish refl)))
      (by_producer (ProducerStep.push 9 refl))

-- A stale load of the write index leaves the consumer with nothing.
abbrev looking : System ℕ
looking = record one_sent {
  consumer = record { handle = handle Role.consumer; pc = ConsumerPc.checking 0; seen = 0 };
}

looking-Reach : Reach begun looking
unfolding begin_front
looking-Reach = next one_sent-Reach (by_consumer (ConsumerStep.front refl))

fifo_example : one_got.received ≡ take (length one_got.received) one_got.sent
fifo_example = fifo begun-IsFresh one_got one_got-Reach

bounded_run : length two_sent.sent < length two_sent.received + 3
bounded_run = bounded begun-IsFresh two_sent two_sent-Reach

abbrev to_write : ℕ
to_write = 1

abbrev to_read : ℕ
to_read = 0

no_race_example : to_write ≢ to_read
no_race_example = no_race begun-IsFresh both_busy both_busy-Reach 0 0 to_write to_read refl refl

full_iff_example :
    let pc = (recheck_push 9 2 0 two_sent.read.last (latest two_sent.read) two_sent.producer).pc in
    ((pc ≡ ProducerPc.idle) ↔ (suc (length two_sent.sent) ≡ 0 + 3))
    × ((pc ≡ ProducerPc.filling ((2, 9) ∷ []) (9 ∷ []) 0) ↔ (suc (length two_sent.sent) < 0 + 3))
full_iff_example = full_iff begun-IsFresh two_sent two_sent-Reach 9 2 0 refl

empty_iff_example :
    let pc = (recheck_front 0 looking.write.last (latest looking.write) looking.consumer).pc in
    ((pc ≡ ConsumerPc.idle) ↔ (0 ≡ length looking.sent))
    × ((pc ≡ ConsumerPc.holding 0) ↔ (0 < length looking.sent))
empty_iff_example = empty_iff begun-IsFresh looking looking-Reach 0 refl

front_pointer_example :
    (x : ℕ) × (get_elem? both_busy.slots 0 ≡ some x)
    × (get_elem? both_busy.sent (length both_busy.received) ≡ some x)
front_pointer_example = front_pointer begun-IsFresh both_busy both_busy-Reach 0 refl

push_wait_free_example :
    ((t : System ℕ) × ProducerStep both_busy t)
    × ((t : System ℕ)
        → ProducerStep both_busy t
        → push_rank t.producer.pc < push_rank both_busy.producer.pc)
    × ((t : System ℕ)
        → ConsumerStep both_busy t
        → push_rank t.producer.pc ≡ push_rank both_busy.producer.pc)
push_wait_free_example = push_wait_free begun-IsFresh both_busy both_busy-Reach (λ e. cc)

pop_wait_free_example :
    ((t : System ℕ) × ConsumerStep both_busy t)
    × ((t : System ℕ)
        → ConsumerStep both_busy t
        → pop_rank t.consumer.pc < pop_rank both_busy.consumer.pc)
    × ((t : System ℕ)
        → ProducerStep both_busy t
        → pop_rank t.consumer.pc ≡ pop_rank both_busy.consumer.pc)
pop_wait_free_example = pop_wait_free begun-IsFresh both_busy both_busy-Reach (λ e. cc)
