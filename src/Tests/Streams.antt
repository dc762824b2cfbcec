-- ===== src/Tests/Streams.antt =====
-- Two messages of the demo's producer, the first of them through the queue.
use shm_spsc.Base.{◌≡◌, refl, List, [], ◌∷◌, replicate, arith}
use shm_spsc.Layout.{Role}
use shm_spsc.Ring.{next_index}
use shm_spsc.Demo.{Message, make_message, exit_code}
use shm_spsc.Latency.{zeroed}
use shm_spsc.Spsc.{System, begin_push, begin_front, recheck_front}
use shm_spsc.Spsc.Step.{
  ProducerStep, ConsumerStep, by_producer, by_consumer, fresh, Reach, here, next,
}
use shm_spsc.Spsc.Safety.{IsFresh}
use shm_spsc.Programs.Stream.{streams_clean}
use shm_spsc.Tests.Interleaved.{handle}
use shm_spsc.Tests.Programs.{sends, sent, polls, counted, two_made, one_got}

abbrev slots : List Message
slots = replicate 3 zeroed

begun-IsFresh : IsFresh 3 slots (handle Role.producer) (handle Role.consumer)
begun-IsFresh = record {
  room = omega arith;
  small = omega arith;
  whole = omega arith;
  producer_capacity = refl;
  consumer_capacity = refl;
  read_cached = refl;
  write_cached = refl;
}

abbrev one_through :
    (s : System Message) × Reach (fresh slots (handle Role.producer) (handle Role.consumer)) s
unfolding begin_push next_index begin_front recheck_front
one_through = (
  _,
  next
      (next
        (next
          (next
            (next
              (next (next here (by_producer (ProducerStep.push (make_message 0 10) refl)))
                (by_producer (ProducerStep.copy refl)))
              (by_producer (ProducerStep.publish refl)))
            (by_consumer (ConsumerStep.front refl)))
          (by_consumer (ConsumerStep.recheck {r = 0} 1 refl (omega arith) (omega arith))))
        (by_consumer (ConsumerStep.look {r = 0} refl)))
      (by_consumer (ConsumerStep.pop {r = 0} {out = make_message 0 10 ∷ []} refl)),
)

streams_clean_example : exit_code counted ≡ 0
unfolding one_through
streams_clean_example =
    streams_clean begun-IsFresh one_through.0 one_through.1 5 sends 2 sent 1 two_made refl 4 polls
      counted refl (omega arith) one_got
