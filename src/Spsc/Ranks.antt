-- ===== src/Spsc/Ranks.antt =====
-- include/shmspsc/ShmSpscQueue.h: how many steps a process has to take before its call returns.
use shm_spsc.Base.{
  ℕ, zero, suc, ◌+◌, ◌<◌, ◌≤◌, ◌≡◌, ◌≢◌, refl, ap, List, [], ◌∷◌, arith, length, min, take, drop,
  ltb, ◌==◌, Bool-cases, inl, inr, length-take, length-append, sub64,
}
use shm_spsc.Ring.{free_slots, used_slots}
use shm_spsc.Spsc.{
  ProducerPc, ConsumerPc, Producer, Consumer, System, run_writes, run_reads, fill, drain,
  recheck_push, recheck_push_n, recheck_front, recheck_pop_n, block, indices,
}
use shm_spsc.Spsc.Step.{ProducerStep, ConsumerStep}

-- A bound on the steps that a process has still to take before its call returns.
abbrev pub push_rank {ℓ} : {A : Type ℓ} → ProducerPc A → ℕ
push_rank ProducerPc.idle = 0
push_rank (ProducerPc.checking x w i) = 3
push_rank (ProducerPc.recounting src n w) = n + 2
push_rank (ProducerPc.filling todo batch i) = length todo + 1

-- From `front` on, the caller's read through the pointer and its `pop` count as steps too.
abbrev pub pop_rank {ℓ} : {A : Type ℓ} → ConsumerPc A → ℕ
pop_rank ConsumerPc.idle = 0
pop_rank (ConsumerPc.looked r out) = 1
pop_rank (ConsumerPc.holding r) = 2
pop_rank (ConsumerPc.checking r) = 3
pop_rank (ConsumerPc.recounting n r) = n + 2
pop_rank (ConsumerPc.draining todo out i) = length todo + 1

length-block {ℓ} : {A : Type ℓ} (xs : List A) (i : ℕ) → length (block i xs) ≡ length xs
length-block [] i = refl
length-block (x ∷ xs) i = ap suc (length-block xs (i + 1))

length-indices : (n i : ℕ) → length (indices i n) ≡ n
length-indices zero i = refl
length-indices (suc n) i = ap suc (length-indices n (i + 1))

split_le : (count first : ℕ) → first ≤ count → first + sub64 count first ≤ count
split_le count first h = omega arith

module _ {ℓ} {A : Type ℓ} where
  block_le : (n : ℕ) (xs : List A) (i : ℕ) → length (block i (take n xs)) ≤ n
  block_le n xs i = omega (arith, length-block (take n xs) i, length-take n xs)

  -- The two copies of a batch of `count` are at most `count` accesses.
  length-run_writes :
      (src : List A) (count capacity w : ℕ) → length (run_writes src count capacity w) ≤ count
  unfolding run_writes
  length-run_writes src count capacity w =
      let first = min count (sub64 capacity w) in
      let head = block w (take first src) in
      let tail = block 0 (take (sub64 count first) (drop first src)) in
      let le = block_le first src w in
      let le' = block_le (sub64 count first) (drop first src) 0 in
      let sum = split_le count first (omega arith) in
      elim (Bool-cases (ltb first count)) [
        | inl cut ↦ rw cut (omega (arith, length-append head tail, le, le', sum))
        | inr fits ↦ rw fits (omega (arith, le))
      ]

  recheck_push_rank :
      (x : A) (w i k r : ℕ) (p : Producer A) → push_rank (recheck_push x w i k r p).pc < 3
  unfolding recheck_push
  recheck_push_rank x w i k r p = elim (Bool-cases (i == r)) [
    | inl hit ↦ rw hit (omega arith)
    | inr miss ↦ rw miss (omega arith)
  ]

  recheck_push_n_rank :
      (src : List A) (n w k r : ℕ) (p : Producer A)
      → push_rank (recheck_push_n src n w k r p).pc < n + 2
  unfolding recheck_push_n fill
  recheck_push_n_rank src n w k r p =
      let free = free_slots p.handle.capacity w r in
      elim (Bool-cases (free == 0)) [
        | inl hit ↦ rw hit (omega arith)
        | inr miss ↦ rw miss (omega (arith, length-run_writes src (min n free) p.handle.capacity w))
      ]

  pub push_closer :
      {s t : System A}
      → ProducerStep s t
      → s.producer.pc ≢ ProducerPc.idle
      → push_rank t.producer.pc < push_rank s.producer.pc
  push_closer (ProducerStep.push x e) busy = absurd (busy e)
  push_closer (ProducerStep.push_n src n g e) busy = absurd (busy e)
  push_closer {s} (ProducerStep.recheck {x} {w} {next = i} k e lo hi) busy =
      rw (ap push_rank e) (recheck_push_rank x w i k (s.read.value k) s.producer)
  push_closer {s} (ProducerStep.recount {src} {n} {w} k e lo hi) busy =
      rw (ap push_rank e) (recheck_push_n_rank src n w k (s.read.value k) s.producer)
  push_closer (ProducerStep.copy e) busy = rw e (omega arith)
  push_closer (ProducerStep.publish e) busy = rw e (omega arith)

  pub push_moves :
      (s : System A) (pc : ProducerPc A)
      → s.producer.pc ≡ pc
      → s.producer.seen ≤ s.read.last
      → s.producer.pc ≢ ProducerPc.idle
      → (t : System A) × ProducerStep s t
  push_moves s ProducerPc.idle e le busy = absurd (busy e)
  push_moves s (ProducerPc.checking x w i) e le busy =
      (_, ProducerStep.recheck s.read.last e le (omega arith))
  push_moves s (ProducerPc.recounting src n w) e le busy =
      (_, ProducerStep.recount s.read.last e le (omega arith))
  push_moves s (ProducerPc.filling [] batch i) e le busy = (_, ProducerStep.publish e)
  push_moves s (ProducerPc.filling ((j, x) ∷ todo) batch i) e le busy = (_, ProducerStep.copy e)

length-run_reads : (count capacity r : ℕ) → length (run_reads count capacity r) ≤ count
unfolding run_reads
length-run_reads count capacity r =
    let first = min count (sub64 capacity r) in
    let head = indices r first in
    let tail = indices 0 (sub64 count first) in
    let le = length-indices first r in
    let le' = length-indices (sub64 count first) 0 in
    let sum = split_le count first (omega arith) in
    elim (Bool-cases (ltb first count)) [
      | inl cut ↦ rw cut (omega (arith, length-append head tail, le, le', sum))
      | inr fits ↦ rw fits (omega (arith, le))
    ]

module _ {ℓ} {A : Type ℓ} where
  recheck_front_rank : (r k w : ℕ) (c : Consumer A) → pop_rank (recheck_front r k w c).pc < 3
  unfolding recheck_front
  recheck_front_rank r k w c = elim (Bool-cases (r == w)) [
    | inl hit ↦ rw hit (omega arith)
    | inr miss ↦ rw miss (omega arith)
  ]

  recheck_pop_n_rank :
      (n r k w : ℕ) (c : Consumer A) → pop_rank (recheck_pop_n n r k w c).pc < n + 2
  unfolding recheck_pop_n drain
  recheck_pop_n_rank n r k w c =
      let avail = used_slots c.handle.capacity w r in
      elim (Bool-cases (avail == 0)) [
        | inl hit ↦ rw hit (omega arith)
        | inr miss ↦ rw miss (omega (arith, length-run_reads (min n avail) c.handle.capacity r))
      ]

  pub pop_closer :
      {s t : System A}
      → ConsumerStep s t
      → s.consumer.pc ≢ ConsumerPc.idle
      → pop_rank t.consumer.pc < pop_rank s.consumer.pc
  pop_closer (ConsumerStep.front e) busy = absurd (busy e)
  pop_closer (ConsumerStep.pop_n n e) busy = absurd (busy e)
  pop_closer {s} (ConsumerStep.recheck {r} k e lo hi) busy =
      rw (ap pop_rank e) (recheck_front_rank r k (s.write.value k) s.consumer)
  pop_closer {s} (ConsumerStep.recount {n} {r} k e lo hi) busy =
      rw (ap pop_rank e) (recheck_pop_n_rank n r k (s.write.value k) s.consumer)
  pop_closer (ConsumerStep.look e) busy = rw e (omega arith)
  pop_closer (ConsumerStep.put_back e) busy = rw e (omega arith)
  pop_closer (ConsumerStep.pop e) busy = rw e (omega arith)
  pop_closer (ConsumerStep.copy e) busy = rw e (omega arith)
  pop_closer (ConsumerStep.release e) busy = rw e (omega arith)

  pub pop_moves :
      (s : System A) (pc : ConsumerPc A)
      → s.consumer.pc ≡ pc
      → s.consumer.seen ≤ s.write.last
      → s.consumer.pc ≢ ConsumerPc.idle
      → (t : System A) × ConsumerStep s t
  pop_moves s ConsumerPc.idle e le busy = absurd (busy e)
  pop_moves s (ConsumerPc.checking r) e le busy =
      (_, ConsumerStep.recheck s.write.last e le (omega arith))
  pop_moves s (ConsumerPc.recounting n r) e le busy =
      (_, ConsumerStep.recount s.write.last e le (omega arith))
  pop_moves s (ConsumerPc.holding r) e le busy = (_, ConsumerStep.look e)
  pop_moves s (ConsumerPc.looked r out) e le busy = (_, ConsumerStep.pop e)
  pop_moves s (ConsumerPc.draining [] out i) e le busy = (_, ConsumerStep.release e)
  pop_moves s (ConsumerPc.draining (j ∷ todo) out i) e le busy = (_, ConsumerStep.copy e)
