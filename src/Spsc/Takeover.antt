-- ===== src/Spsc/Takeover.antt =====
-- include/shmspsc/ShmSpscQueue.h, the loads of `bind`: a process dies at any point of a call, and
-- another takes its role over while the peer runs on.
use shm_spsc.Base.{
  ℕ, ◌+◌, ◌<◌, ◌≤◌, ◌≡◌, ◌≢◌, refl, sym, ◌∙◌, List, [], ◌++◌, arith, length, take, get_elem?, some,
  get_elem?-append_left, length-append,
}
use shm_spsc.Layout.{Role, ControlBlock}
use shm_spsc.Ring.{Handle}
use shm_spsc.Attach.{load_members}
use shm_spsc.Spsc.{ProducerPc, Producer, ConsumerPc, System}
use shm_spsc.Spsc.Step.{Step, fresh, Reach, here, next}
use shm_spsc.Spsc.Invariant.{Inv, Stored}
use shm_spsc.Spsc.Pending.{writes, reads}
use shm_spsc.Spsc.Consume.{shown}
use shm_spsc.Spsc.Drain.{moved}
use shm_spsc.Spsc.Safety.{IsFresh, fresh-Inv, Step-Inv, delivered_prefix, few_between, disjoint}

-- The new owner loads the block `ctrl`: the capacity, and of the peer's index a store `k` that is
-- no older than what the old owner had seen. `Attach.Stale` shows a `bind` whose load is older.
pub data Life {ℓ} {A : Type ℓ} (s : System A) : System A → Type ℓ where
  run : {t : System A} → Step s t → Life s t
  new_producer :
      (ctrl : ControlBlock) (h : Handle) (k : ℕ)
      → ctrl.capacity ≡ s.producer.handle.capacity
      → ctrl.read_idx ≡ s.read.value k
      → s.producer.seen ≤ k
      → k ≤ s.read.last
      → Life s (record s {
        producer = record {
          handle = load_members Role.producer h ctrl;
          pc = ProducerPc.idle;
          seen = k;
        };
      })
  new_consumer :
      (ctrl : ControlBlock) (h : Handle) (k : ℕ)
      → ctrl.capacity ≡ s.consumer.handle.capacity
      → ctrl.write_idx ≡ s.write.value k
      → s.consumer.seen ≤ k
      → k ≤ s.write.last
      → Life s (record s {
        consumer = record {
          handle = load_members Role.consumer h ctrl;
          pc = ConsumerPc.idle;
          seen = k;
        };
      })

pub data Lives {ℓ} {A : Type ℓ} (s : System A) : System A → Type ℓ where
  born : Lives s s
  lived : {t u : System A} → Lives s t → Life t u → Lives s u

pub Reach-Lives {ℓ} : {A : Type ℓ} {s t : System A} → Reach s t → Lives s t
Reach-Lives here = born
Reach-Lives (next reach m) = lived (Reach-Lives reach) (Life.run m)

module _ {ℓ} {A : Type ℓ} {cap : ℕ} {s : System A} (v : Inv cap s) where
  -- What the dead producer has copied and not published is forgotten.
  forget_batch : Stored cap (v.rt s.read.last) (s.sent ++ []) s.slots
  forget_batch p lo hi =
      let lt : p < length s.sent = omega (arith, length-append {A = A} s.sent []) in
      v.stored p lo (omega (arith, length-append s.sent v.written))
      ∙ get_elem?-append_left s.sent v.written p lt
      ∙ sym (get_elem?-append_left s.sent [] p lt)

  -- A producer between two calls, whose cache is a store that is no older than what the last
  -- producer had seen, may take its place.
  pub successor-Inv :
      (p : Producer A)
      → p.handle.capacity ≡ cap
      → p.handle.read_idx_cache ≡ s.read.value p.seen
      → p.pc ≡ ProducerPc.idle
      → s.producer.seen ≤ p.seen
      → p.seen ≤ s.read.last
      → Inv cap (record s { producer = p })
  successor-Inv p same cached between newer known = record {
    room = v.room;
    small = v.small;
    whole = v.whole;
    wt = v.wt;
    rt = v.rt;
    written = [];
    write_index = v.write_index;
    read_index = v.read_index;
    producer = record {
      same = same;
      seen_in = known;
      cached = cached ∙ v.read_index.placed p.seen known;
      ahead =
          omega (arith, v.producer.ahead, v.read_index.grows s.producer.seen p.seen newer known);
      at = rw between refl;
    };
    consumer = v.consumer;
    published = v.published;
    delivered = v.delivered;
    stored = forget_batch;
  }

  new_producer-Inv :
      (ctrl : ControlBlock) (h : Handle) (k : ℕ)
      → ctrl.capacity ≡ s.producer.handle.capacity
      → ctrl.read_idx ≡ s.read.value k
      → s.producer.seen ≤ k
      → k ≤ s.read.last
      → Inv cap (record s {
        producer = record {
          handle = load_members Role.producer h ctrl;
          pc = ProducerPc.idle;
          seen = k;
        };
      })
  unfolding load_members
  new_producer-Inv ctrl h k same loaded newer known =
      successor-Inv _ (same ∙ v.producer.same) loaded refl newer known

  new_consumer-Inv :
      (ctrl : ControlBlock) (h : Handle) (k : ℕ)
      → ctrl.capacity ≡ s.consumer.handle.capacity
      → ctrl.write_idx ≡ s.write.value k
      → s.consumer.seen ≤ k
      → k ≤ s.write.last
      → Inv cap (record s {
        consumer = record {
          handle = load_members Role.consumer h ctrl;
          pc = ConsumerPc.idle;
          seen = k;
        };
      })
  unfolding load_members
  new_consumer-Inv ctrl h k same loaded newer known = moved v _ record {
    same = same ∙ v.consumer.same;
    seen_in = known;
    cached = loaded ∙ v.write_index.placed k known;
    behind = shown v k newer known;
    at = tt;
  }

Life-Inv {ℓ} : {A : Type ℓ} {cap : ℕ} {s t : System A} → Life s t → Inv cap s → Inv cap t
Life-Inv (Life.run m) v = Step-Inv m v
Life-Inv (Life.new_producer ctrl h k same loaded newer known) v =
    new_producer-Inv v ctrl h k same loaded newer known
Life-Inv (Life.new_consumer ctrl h k same loaded newer known) v =
    new_consumer-Inv v ctrl h k same loaded newer known

module _ {ℓ} {A : Type ℓ} {cap : ℕ} {slots : List A} {p c : Handle}
    (f : IsFresh cap slots p c) where
  Lives-Inv : {s : System A} → Lives (fresh slots p c) s → Inv cap s
  Lives-Inv born = fresh-Inv f
  Lives-Inv (lived life m) = Life-Inv m (Lives-Inv life)

  -- Processes may die anywhere in their calls and be replaced by others that load the indices anew:
  -- still what has been received is the first elements of what has been published, fewer than
  -- `capacity` elements are between, and no slot still to be written is one that may still be read.
  pub takeover :
      (s : System A)
      → Lives (fresh slots p c) s
      → (s.received ≡ take (length s.received) s.sent)
        × (length s.sent < length s.received + cap)
        × ((m n i j : ℕ)
            → get_elem? (writes s.producer.pc) m ≡ some i
            → get_elem? (reads s.consumer.pc) n ≡ some j
            → i ≢ j)
  takeover s life = let v = Lives-Inv life in (delivered_prefix v, few_between v, disjoint v)
