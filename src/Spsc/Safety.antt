-- ===== src/Spsc/Safety.antt =====
-- The states that the two processes reach from a fresh queue.
use shm_spsc.Base.{
  ℕ, ◌+◌, ◌<◌, ◌≤◌, ◌^◌, ◌≡◌, ◌≢◌, refl, sym, ap, ◌∙◌, List, [], arith, length, take,
  length-take_of_le, get_elem?, some,
}
use shm_spsc.Ring.{Handle}
use shm_spsc.Spsc.{System}
use shm_spsc.Spsc.Places.{slot_of, slot_of-ne}
use shm_spsc.Spsc.Step.{Step, by_producer, by_consumer, fresh, Reach, here, next}
use shm_spsc.Spsc.Invariant.{Inv}
use shm_spsc.Spsc.Fill.{ProducerStep-Inv}
use shm_spsc.Spsc.Drain.{ConsumerStep-Inv}
use shm_spsc.Spsc.Pending.{writes, reads, writes_at, reads_at}

-- What `create` and `bind` establish.
pub record IsFresh {ℓ} {A : Type ℓ} (cap : ℕ) (slots : List A) (p c : Handle) : Type 0 where
  pub room : 2 ≤ cap
  pub small : cap ≤ 2 ^ 63
  pub whole : cap ≤ length slots
  pub producer_capacity : p.capacity ≡ cap
  pub consumer_capacity : c.capacity ≡ cap
  pub read_cached : p.read_idx_cache ≡ 0
  pub write_cached : c.write_idx_cache ≡ 0

module _ {ℓ} {A : Type ℓ} {cap : ℕ} where
  pub Step-Inv : {s t : System A} → Step s t → Inv cap s → Inv cap t
  Step-Inv (by_producer m) v = ProducerStep-Inv m v
  Step-Inv (by_consumer m) v = ConsumerStep-Inv m v

module _ {ℓ} {A : Type ℓ} {cap : ℕ} {slots : List A} {p c : Handle}
    (f : IsFresh cap slots p c) where
  pub fresh-Inv : Inv cap (fresh slots p c)
  unfolding slot_of
  fresh-Inv = record {
    room = f.room;
    small = f.small;
    whole = f.whole;
    wt = λ _. 0;
    rt = λ _. 0;
    written = [];
    write_index = record { placed = λ k h. refl; grows = λ j k h g. omega arith };
    read_index = record { placed = λ k h. refl; grows = λ j k h g. omega arith };
    producer = record {
      same = f.producer_capacity;
      seen_in = omega arith;
      cached = f.read_cached;
      ahead = omega (arith, f.room);
      at = refl;
    };
    consumer = record {
      same = f.consumer_capacity;
      seen_in = omega arith;
      cached = f.write_cached;
      behind = omega arith;
      at = tt;
    };
    published = refl;
    delivered = refl;
    stored = λ i lo hi. absurd (omega arith);
  }

  pub Reach-Inv : {s : System A} → Reach (fresh slots p c) s → Inv cap s
  Reach-Inv here = fresh-Inv
  Reach-Inv (next reach m) = Step-Inv m (Reach-Inv reach)

module _ {ℓ} {A : Type ℓ} {cap : ℕ} {s : System A} (v : Inv cap s) where
  pub read_le : v.rt s.read.last ≤ length s.sent
  read_le =
      let up = v.write_index.grows s.consumer.seen s.write.last v.consumer.seen_in (omega arith) in
      omega (arith, v.consumer.behind, up, v.published)

  pub length-received : length s.received ≡ v.rt s.read.last
  length-received = ap length v.delivered ∙ length-take_of_le (v.rt s.read.last) s.sent read_le

  pub lead_lt : length s.sent < v.rt s.read.last + cap
  lead_lt =
      let up = v.read_index.grows s.producer.seen s.read.last v.producer.seen_in (omega arith) in
      omega (arith, v.producer.ahead, up, v.published)

  pub producer_limit : v.rt s.producer.seen + cap ≤ v.rt s.read.last + cap
  producer_limit =
      let up = v.read_index.grows s.producer.seen s.read.last v.producer.seen_in (omega arith) in
      omega (arith, up)

  pub consumer_limit : v.wt s.consumer.seen ≤ length s.sent
  consumer_limit =
      let up = v.write_index.grows s.consumer.seen s.write.last v.consumer.seen_in (omega arith) in
      omega (arith, up, v.published)

  pub some_slot : 0 < cap
  some_slot = omega (arith, v.room)

module _ {ℓ} {A : Type ℓ} {cap : ℕ} {s : System A} (v : Inv cap s) where
  pub delivered_prefix : s.received ≡ take (length s.received) s.sent
  delivered_prefix = v.delivered ∙ ap (λ k. take k s.sent) (sym (length-received v))

  pub few_between : length s.sent < length s.received + cap
  few_between = omega (arith, lead_lt v, length-received v)

  pub disjoint :
      (m n i j : ℕ)
      → get_elem? (writes s.producer.pc) m ≡ some i
      → get_elem? (reads s.consumer.pc) n ≡ some j
      → i ≢ j
  disjoint m n i j hi hj =
      let (q, ei, lo, hi) =
        writes_at cap (some_slot v) (v.wt s.write.last) (v.rt s.producer.seen + cap) v.written
          s.producer.pc m i v.producer.at hi in
      let (q', ej, lo', hi') =
        reads_at cap (some_slot v) (v.rt s.read.last) (v.wt s.consumer.seen) s.sent s.consumer.pc n
          j v.consumer.at hj in
      λ e.
        slot_of-ne cap (some_slot v) q' q (omega (arith, consumer_limit v, v.published))
          (omega (arith, producer_limit v)) (sym ei ∙ e ∙ ej)

module _ {ℓ} {A : Type ℓ} {cap : ℕ} {slots : List A} {p c : Handle}
    (f : IsFresh cap slots p c) where
  -- In every reachable state what has been received is the first elements of what has been sent.
  pub fifo :
      (s : System A) → Reach (fresh slots p c) s → s.received ≡ take (length s.received) s.sent
  fifo s reach = delivered_prefix (Reach-Inv f reach)

  -- In every reachable state fewer than `capacity` elements are between the two processes.
  pub bounded : (s : System A) → Reach (fresh slots p c) s → length s.sent < length s.received + cap
  bounded s reach = few_between (Reach-Inv f reach)

  -- In every reachable state no slot that the producer is still to write is one that the consumer
  -- may still read: the plain copies of the two processes never race.
  pub no_race :
      (s : System A)
      → Reach (fresh slots p c) s
      → (m n i j : ℕ) → get_elem? (writes s.producer.pc) m ≡ some i
      → get_elem? (reads s.consumer.pc) n ≡ some j
      → i ≢ j
  no_race s reach = disjoint (Reach-Inv f reach)
