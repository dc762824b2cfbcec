-- ===== src/Spsc.antt =====
-- include/shmspsc/ShmSpscQueue.h: the producer and the consumer as two processes, one access to
-- shared memory a step, in any interleaving. An acquire load of the peer's index may return any
-- store of it that is no older than the last one seen, as the memory model of C++ allows; a relaxed
-- load of the own index returns the own last store. The copies into and out of the slots go one
-- element a step, on plain memory.
pub mod Places
pub mod Step
pub mod Runs
pub mod Invariant
pub mod Stores
pub mod Produce
pub mod ProduceN
pub mod Fill
pub mod Consume
pub mod Drain
pub mod Pending
pub mod Safety
pub mod Answers
pub mod Ranks
pub mod Progress
pub mod Takeover
pub mod Estimate
use shm_spsc.Base.{ℕ, ◌+◌, min, List, [], ◌∷◌, ◌++◌, ltb, ◌==◌, if◌then◌else◌, sub64, take, drop}
use shm_spsc.Ring.{Handle, next_index, skip_index, free_slots, used_slots}

-- An atomic index: its stores in their modification order, `value 0` … `value last`.
pub record Index : Type 0 where
  pub last : ℕ
  pub value : ℕ → ℕ

abbrev pub latest : Index → ℕ
latest x = x.value x.last

abbrev pub store : ℕ → Index → Index
store v x = record { last = x.last + 1; value = λ k. if k == x.last + 1 then v else x.value k }

-- Where the producer stands, with the local variables that are live there.
pub data ProducerPc {ℓ} (A : Type ℓ) : Type ℓ where
  idle : ProducerPc A
  checking : A → (w next : ℕ) → ProducerPc A  -- the acquire load of `try_push`
  recounting : List A → (n w : ℕ) → ProducerPc A  -- the acquire load of `push_n`
  filling : (todo : List (ℕ × A)) (batch : List A) (next : ℕ) → ProducerPc A  -- the copies, then the store

pub data ConsumerPc {ℓ} (A : Type ℓ) : Type ℓ where
  idle : ConsumerPc A
  checking : (r : ℕ) → ConsumerPc A  -- the acquire load of `front`
  holding : (r : ℕ) → ConsumerPc A  -- `front` has returned `&slots_[r]`
  looked : (r : ℕ) (out : List A) → ConsumerPc A  -- the element has been read through that pointer
  recounting : (n r : ℕ) → ConsumerPc A  -- the acquire load of `pop_n`
  draining : (todo : List ℕ) (out : List A) (next : ℕ) → ConsumerPc A  -- the copies, then the store

-- `seen` is the place, in the peer's index, of the last store that an acquire load returned.
pub record Producer {ℓ} (A : Type ℓ) : Type ℓ where
  pub handle : Handle
  pub pc : ProducerPc A
  pub seen : ℕ

pub record Consumer {ℓ} (A : Type ℓ) : Type ℓ where
  pub handle : Handle
  pub pc : ConsumerPc A
  pub seen : ℕ

-- `sent` and `received` record what has been published and what has been popped.
pub record System {ℓ} (A : Type ℓ) : Type ℓ where
  pub write : Index
  pub read : Index
  pub slots : List A
  pub producer : Producer A
  pub consumer : Consumer A
  pub sent : List A
  pub received : List A

-- The elements of one `memcpy`, from slot `i` on.
abbrev pub block {ℓ} : {A : Type ℓ} → ℕ → List A → List (ℕ × A)
block i [] = []
block i (x ∷ xs) = (i, x) ∷ block (i + 1) xs

abbrev pub indices : ℕ → ℕ → List ℕ
indices i ℕ.zero = []
indices i (ℕ.suc n) = i ∷ indices (i + 1) n

module _ {ℓ} {A : Type ℓ} where
  -- The writes of the two copies of `push_n`, and the reads of those of `pop_n`.
  unfoldable pub run_writes : List A → ℕ → ℕ → ℕ → List (ℕ × A)
  run_writes src count capacity w =
      let first = min count (sub64 capacity w) in
      let head = block w (take first src) in
      if ltb first count then head ++ block 0 (take (sub64 count first) (drop first src)) else head

  -- `try_push` up to its branch
  unfoldable pub begin_push : A → ℕ → Producer A → Producer A
  begin_push x w p =
      let next = next_index p.handle.capacity w in
      if next == p.handle.read_idx_cache
      then record p { pc = checking x w next }
      else record p { pc = filling ((w, x) ∷ []) (x ∷ []) next }

  -- its acquire load, which returned store `k`, of value `r`, and the second test
  unfoldable pub recheck_push : A → (w next k r : ℕ) → Producer A → Producer A
  recheck_push x w next k r p =
      let h = record p.handle { read_idx_cache = r } in
      if next == r
      then record { handle = h; pc = idle; seen = k }
      else record { handle = h; pc = filling ((w, x) ∷ []) (x ∷ []) next; seen = k }

  unfoldable pub fill : List A → (count w : ℕ) → Handle → ProducerPc A
  fill src count w h =
      filling (run_writes src count h.capacity w) (take count src) (skip_index h.capacity w count)

  -- `push_n` up to its acquire load
  unfoldable pub begin_push_n : List A → (n w : ℕ) → Producer A → Producer A
  begin_push_n src n w p =
      let free = free_slots p.handle.capacity w p.handle.read_idx_cache in
      if n == 0
      then p
      else if ltb free n
      then record p { pc = recounting src n w }
      else record p { pc = fill src (min n free) w p.handle }

  unfoldable pub recheck_push_n : List A → (n w k r : ℕ) → Producer A → Producer A
  recheck_push_n src n w k r p =
      let h = record p.handle { read_idx_cache = r } in
      let free = free_slots h.capacity w r in
      if free == 0
      then record { handle = h; pc = idle; seen = k }
      else record { handle = h; pc = fill src (min n free) w h; seen = k }

  -- `front` up to its acquire load
  unfoldable pub begin_front : ℕ → Consumer A → Consumer A
  begin_front r c =
      if r == c.handle.write_idx_cache
      then record c { pc = checking r }
      else record c { pc = holding r }

  unfoldable pub recheck_front : (r k w : ℕ) → Consumer A → Consumer A
  recheck_front r k w c =
      let h = record c.handle { write_idx_cache = w } in
      if r == w
      then record { handle = h; pc = idle; seen = k }
      else record { handle = h; pc = holding r; seen = k }

unfoldable pub run_reads : ℕ → ℕ → ℕ → List ℕ
run_reads count capacity r =
    let first = min count (sub64 capacity r) in
    let head = indices r first in
    if ltb first count then head ++ indices 0 (sub64 count first) else head

module _ {ℓ} {A : Type ℓ} where
  unfoldable pub drain : (count r : ℕ) → Handle → ConsumerPc A
  drain count r h = draining (run_reads count h.capacity r) [] (skip_index h.capacity r count)

  -- `pop_n` up to its acquire load
  unfoldable pub begin_pop_n : (n r : ℕ) → Consumer A → Consumer A
  begin_pop_n n r c =
      let avail = used_slots c.handle.capacity c.handle.write_idx_cache r in
      if n == 0
      then c
      else if ltb avail n
      then record c { pc = recounting n r }
      else record c { pc = drain (min n avail) r c.handle }

  unfoldable pub recheck_pop_n : (n r k w : ℕ) → Consumer A → Consumer A
  recheck_pop_n n r k w c =
      let h = record c.handle { write_idx_cache = w } in
      let avail = used_slots h.capacity w r in
      if avail == 0
      then record { handle = h; pc = idle; seen = k }
      else record { handle = h; pc = drain (min n avail) r h; seen = k }
