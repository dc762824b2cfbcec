-- ===== src/Spsc/Invariant.antt =====
-- What holds between any two steps: where each process stands in the stream of elements, how far
-- it may trust what it has loaded, and what the slots between the two indices hold.
use shm_spsc.Base.{ℕ, suc, ◌+◌, ◌<◌, ◌≤◌, ◌^◌, ◌≡◌, List, [], ◌++◌, length, take, drop, get_elem?}
use shm_spsc.Spsc.{Index, ProducerPc, ConsumerPc, Producer, Consumer, System}
use shm_spsc.Spsc.Places.{slot_of}
use shm_spsc.Spsc.Runs.{spots, places}

-- An index and the number of elements behind each of its stores.
pub record IsIndex (cap : ℕ) (x : Index) (total : ℕ → ℕ) : Type 0 where
  pub placed : (k : ℕ) → k ≤ x.last → x.value k ≡ slot_of cap (total k)
  pub grows : (j k : ℕ) → j ≤ k → k ≤ x.last → total j ≤ total k

-- The locals of the producer, with `w` elements published and room below position `lim`; `written`
-- is the part of its batch that is in the slots.
abbrev pub ProducerAt {ℓ} : {A : Type ℓ} → (cap w lim : ℕ) → List A → ProducerPc A → Type ℓ
ProducerAt cap w lim written ProducerPc.idle = written ≡ []
ProducerAt cap w lim written (ProducerPc.checking x i next) =
    (written ≡ []) × (i ≡ slot_of cap w) × (next ≡ slot_of cap (suc w))
ProducerAt cap w lim written (ProducerPc.recounting src n i) =
    (written ≡ []) × (i ≡ slot_of cap w) × (n ≤ length src)
ProducerAt {A} cap w lim written (ProducerPc.filling todo batch next) =
    (rest : List A) × (batch ≡ written ++ rest)
    × (todo ≡ spots cap (slot_of cap (w + length written)) rest)
    × (next ≡ slot_of cap (w + length batch))
    × (w + length batch < lim)

-- The locals of the consumer, with `r` elements popped and those below position `lim` published.
abbrev pub ConsumerAt {ℓ} : {A : Type ℓ} → (cap r lim : ℕ) → List A → ConsumerPc A → Type ℓ
ConsumerAt cap r lim sent ConsumerPc.idle = Unit
ConsumerAt cap r lim sent (ConsumerPc.checking i) = (i ≡ slot_of cap r) × Unit {ℓ}
ConsumerAt cap r lim sent (ConsumerPc.holding i) = (i ≡ slot_of cap r) × (r < lim) × Unit {ℓ}
ConsumerAt cap r lim sent (ConsumerPc.looked i out) =
    (i ≡ slot_of cap r) × (r < lim) × (out ≡ take 1 (drop r sent))
ConsumerAt cap r lim sent (ConsumerPc.recounting n i) = (i ≡ slot_of cap r) × Unit {ℓ}
ConsumerAt cap r lim sent (ConsumerPc.draining todo out next) =
    (out ≡ take (length out) (drop r sent))
    × (todo ≡ places cap (slot_of cap (r + length out)) (length todo))
    × (next ≡ slot_of cap (r + (length out + length todo)))
    × (r + (length out + length todo) ≤ lim)

pub record ProducerInv {ℓ} {A : Type ℓ} (cap w : ℕ) (read : Index) (rt : ℕ → ℕ) (written : List A)
    (p : Producer A) : Type ℓ where
  pub same : p.handle.capacity ≡ cap
  pub seen_in : p.seen ≤ read.last
  pub cached : p.handle.read_idx_cache ≡ slot_of cap (rt p.seen)
  pub ahead : w < rt p.seen + cap
  pub at : ProducerAt cap w (rt p.seen + cap) written p.pc

pub record ConsumerInv {ℓ} {A : Type ℓ} (cap r : ℕ) (write : Index) (wt : ℕ → ℕ) (sent : List A)
    (c : Consumer A) : Type ℓ where
  pub same : c.handle.capacity ≡ cap
  pub seen_in : c.seen ≤ write.last
  pub cached : c.handle.write_idx_cache ≡ slot_of cap (wt c.seen)
  pub behind : r ≤ wt c.seen
  pub at : ConsumerAt cap r (wt c.seen) sent c.pc

-- From position `r` on, the slots hold what `all` has there.
abbrev pub Stored {ℓ} : {A : Type ℓ} → (cap r : ℕ) → List A → List A → Type ℓ
Stored cap r all slots =
    (p : ℕ) → r ≤ p → p < length all → get_elem? slots (slot_of cap p) ≡ get_elem? all p

pub record Inv {ℓ} {A : Type ℓ} (cap : ℕ) (s : System A) : Type ℓ where
  pub room : 2 ≤ cap
  pub small : cap ≤ 2 ^ 63
  pub whole : cap ≤ length s.slots
  pub wt : ℕ → ℕ
  pub rt : ℕ → ℕ
  pub written : List A
  pub write_index : IsIndex cap s.write wt
  pub read_index : IsIndex cap s.read rt
  pub producer : ProducerInv cap (wt s.write.last) s.read rt written s.producer
  pub consumer : ConsumerInv cap (rt s.read.last) s.write wt s.sent s.consumer
  pub published : length s.sent ≡ wt s.write.last
  pub delivered : s.received ≡ take (rt s.read.last) s.sent
  pub stored : Stored cap (rt s.read.last) (s.sent ++ written) s.slots
