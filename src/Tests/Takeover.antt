-- ===== src/Tests/Takeover.antt =====
-- A producer that dies between the copy and the store of a `try_push`, and its successor.
use shm_spsc.Base.{ℕ, ◌+◌, ◌<◌, ◌≡◌, ◌≢◌, refl, [], ◌∷◌, length, take, get_elem?, some, arith}
use shm_spsc.Layout.{Role, ControlBlock}
use shm_spsc.Ring.{next_index}
use shm_spsc.Attach.{load_members}
use shm_spsc.Spsc.{ProducerPc, System, begin_push}
use shm_spsc.Spsc.Step.{ProducerStep, by_producer}
use shm_spsc.Spsc.Pending.{writes, reads}
use shm_spsc.Spsc.Takeover.{Life, Lives, lived, Reach-Lives, takeover}
use shm_spsc.Tests.Interleaved.{handle, begun, begun-IsFresh, both_busy, both_busy-Reach}
use shm_spsc.Tests.Whole.{block}

-- What the successor loads.
abbrev pub loaded : ControlBlock
loaded = record block { capacity = 3; write_idx = 1; read_idx = 0 }

-- The first producer was killed with 8 in its slot; its successor is about to write 9 there, while
-- the consumer holds the pointer to 7.
abbrev replaced : System ℕ
unfolding load_members
replaced = record both_busy {
  slots = 7 ∷ 8 ∷ 0 ∷ [];
  producer = record {
    handle = load_members Role.producer (handle Role.producer) loaded;
    pc = ProducerPc.filling ((1, 9) ∷ []) (9 ∷ []) 2;
    seen = 0;
  };
}

replaced-Lives : Lives begun replaced
unfolding load_members begin_push next_index
replaced-Lives =
    lived
      (lived (lived (Reach-Lives both_busy-Reach) (Life.run (by_producer (ProducerStep.copy refl))))
        (Life.new_producer loaded (handle Role.producer) 0 refl refl (omega arith) (omega arith)))
      (Life.run (by_producer (ProducerStep.push 9 refl)))

takeover_example :
    (replaced.received ≡ take (length replaced.received) replaced.sent)
    × (length replaced.sent < length replaced.received + 3)
    × ((m n i j : ℕ)
        → get_elem? (writes replaced.producer.pc) m ≡ some i
        → get_elem? (reads replaced.consumer.pc) n ≡ some j
        → i ≢ j)
takeover_example = takeover begun-IsFresh replaced replaced-Lives
