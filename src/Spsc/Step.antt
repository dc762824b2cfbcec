-- ===== src/Spsc/Step.antt =====
-- The steps of the two processes, and the states that they reach.
use shm_spsc.Base.{ℕ, ◌≤◌, ◌≡◌, List, [], ◌∷◌, ◌++◌, set, get_elem?, length}
use shm_spsc.Ring.{Handle, next_index}
use shm_spsc.Ring.Window.{cons?}
use shm_spsc.Spsc.{
  latest, store, ProducerPc, ConsumerPc, System, begin_push, recheck_push, begin_push_n,
  recheck_push_n, begin_front, recheck_front, begin_pop_n, recheck_pop_n,
}

module _ {ℓ} {A : Type ℓ} where
  -- What the copy through a slot's index adds to what has been read.
  abbrev pub read_slot : List A → ℕ → List A
  read_slot slots i = cons? (get_elem? slots i) []

pub data ProducerStep {ℓ} {A : Type ℓ} (s : System A) : System A → Type ℓ where
  push :
      (x : A)
      → s.producer.pc ≡ ProducerPc.idle
      → ProducerStep s (record s { producer = begin_push x (latest s.write) s.producer })
  recheck :
      {x : A} {w next : ℕ} (k : ℕ)
      → s.producer.pc ≡ ProducerPc.checking x w next
      → s.producer.seen ≤ k
      → k ≤ s.read.last
      → ProducerStep s (record s { producer = recheck_push x w next k (s.read.value k) s.producer })
  push_n :
      (src : List A) (n : ℕ)
      → n ≤ length src
      → s.producer.pc ≡ ProducerPc.idle
      → ProducerStep s (record s { producer = begin_push_n src n (latest s.write) s.producer })
  recount :
      {src : List A} {n w : ℕ} (k : ℕ)
      → s.producer.pc ≡ ProducerPc.recounting src n w
      → s.producer.seen ≤ k
      → k ≤ s.read.last
      → ProducerStep s
          (record s { producer = recheck_push_n src n w k (s.read.value k) s.producer })
  copy :
      {i next : ℕ} {x : A} {todo : List (ℕ × A)} {batch : List A}
      → s.producer.pc ≡ ProducerPc.filling ((i, x) ∷ todo) batch next
      → ProducerStep s (record s {
        slots = set s.slots i x;
        producer = record s.producer { pc = ProducerPc.filling todo batch next };
      })
  publish :
      {next : ℕ} {batch : List A}
      → s.producer.pc ≡ ProducerPc.filling [] batch next
      → ProducerStep s (record s {
        write = store next s.write;
        sent = s.sent ++ batch;
        producer = record s.producer { pc = ProducerPc.idle };
      })

pub data ConsumerStep {ℓ} {A : Type ℓ} (s : System A) : System A → Type ℓ where
  front :
      s.consumer.pc ≡ ConsumerPc.idle
      → ConsumerStep s (record s { consumer = begin_front (latest s.read) s.consumer })
  recheck :
      {r : ℕ} (k : ℕ)
      → s.consumer.pc ≡ ConsumerPc.checking r
      → s.consumer.seen ≤ k
      → k ≤ s.write.last
      → ConsumerStep s (record s { consumer = recheck_front r k (s.write.value k) s.consumer })
  look :
      {r : ℕ}
      → s.consumer.pc ≡ ConsumerPc.holding r
      → ConsumerStep s (record s {
        consumer = record s.consumer { pc = ConsumerPc.looked r (read_slot s.slots r) };
      })
  -- `front` again, with no `pop` in between
  put_back :
      {r : ℕ} {out : List A}
      → s.consumer.pc ≡ ConsumerPc.looked r out
      → ConsumerStep s (record s { consumer = record s.consumer { pc = ConsumerPc.idle } })
  pop :
      {r : ℕ} {out : List A}
      → s.consumer.pc ≡ ConsumerPc.looked r out
      → ConsumerStep s (record s {
        read = store (next_index s.consumer.handle.capacity (latest s.read)) s.read;
        received = s.received ++ out;
        consumer = record s.consumer { pc = ConsumerPc.idle };
      })
  pop_n :
      (n : ℕ)
      → s.consumer.pc ≡ ConsumerPc.idle
      → ConsumerStep s (record s { consumer = begin_pop_n n (latest s.read) s.consumer })
  recount :
      {n r : ℕ} (k : ℕ)
      → s.consumer.pc ≡ ConsumerPc.recounting n r
      → s.consumer.seen ≤ k
      → k ≤ s.write.last
      → ConsumerStep s (record s { consumer = recheck_pop_n n r k (s.write.value k) s.consumer })
  copy :
      {i next : ℕ} {todo : List ℕ} {out : List A}
      → s.consumer.pc ≡ ConsumerPc.draining (i ∷ todo) out next
      → ConsumerStep s (record s {
        consumer = record s.consumer {
          pc = ConsumerPc.draining todo (out ++ read_slot s.slots i) next;
        };
      })
  release :
      {next : ℕ} {out : List A}
      → s.consumer.pc ≡ ConsumerPc.draining [] out next
      → ConsumerStep s (record s {
        read = store next s.read;
        received = s.received ++ out;
        consumer = record s.consumer { pc = ConsumerPc.idle };
      })

pub data Step {ℓ} {A : Type ℓ} (s t : System A) : Type ℓ where
  by_producer : ProducerStep s t → Step s t
  by_consumer : ConsumerStep s t → Step s t

-- A queue as `create` makes it, and both handles as `bind` leaves them.
abbrev pub fresh {ℓ} : {A : Type ℓ} → List A → Handle → Handle → System A
fresh slots p c = record {
  write = record { last = 0; value = λ _. 0 };
  read = record { last = 0; value = λ _. 0 };
  slots = slots;
  producer = record { handle = p; pc = ProducerPc.idle; seen = 0 };
  consumer = record { handle = c; pc = ConsumerPc.idle; seen = 0 };
  sent = [];
  received = [];
}

pub data Reach {ℓ} {A : Type ℓ} (s : System A) : System A → Type ℓ where
  here : Reach s s
  next : {t u : System A} → Reach s t → Step t u → Reach s u
