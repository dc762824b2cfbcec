-- ===== src/Ring/Refine.antt =====
-- The operations of include/shmspsc/ShmSpscQueue.h, run whole, against those of the bounded queue.
use shm_spsc.Base.{
  ℕ, ◌+◌, ◌-◌, ◌<◌, ◌≤◌, ◌≡◌, ◌≢◌, ◌∙◌, refl, sym, ap, true, false, none, List, ◌==◌, eq→==, ne→==,
  arith, length, min, take, drop, get_elem?, take-min, drop-min,
}
use native.Mathlib.Decide.{ℕ_discrete}
use shm_spsc.Queue
use shm_spsc.Ring.{
  copy_out, refresh_write, Handle, Shared, try_push, try_pop, push_n, pop_n, front, pointee,
}
use shm_spsc.Ring.Invariant.{
  IsRing, IsWriter, IsReader, contents, count, count-lt, length-contents, refresh_read-IsWriter,
  refresh_write-IsReader,
}
use shm_spsc.Ring.Single
use shm_spsc.Ring.Batch
use shm_spsc.Ring.Unbatch

-- What a call of the producer keeps, its own handle's cache and every consumer's.
pub record Produced {ℓ} {A : Type ℓ} (s : Shared A) (h' : Handle) (s' : Shared A) : Type 0 where
  pub ring : IsRing s'
  pub writer : IsWriter h' s'.ctrl
  pub readers : (c : Handle) → IsReader c s.ctrl → IsReader c s'.ctrl
  pub fixed : s'.ctrl.capacity ≡ s.ctrl.capacity

pub record Consumed {ℓ} {A : Type ℓ} (s : Shared A) (h' : Handle) (s' : Shared A) : Type 0 where
  pub ring : IsRing s'
  pub reader : IsReader h' s'.ctrl
  pub writers : (p : Handle) → IsWriter p s.ctrl → IsWriter p s'.ctrl
  pub fixed : s'.ctrl.capacity ≡ s.ctrl.capacity

-- One slot is never handed out.
abbrev pub limit {ℓ} : {A : Type ℓ} → Shared A → ℕ
limit s = s.ctrl.capacity - 1

module _ {ℓ} {A : Type ℓ} {s : Shared A} (v : IsRing s) where
  length_full : count s.ctrl + 1 ≡ s.ctrl.capacity → (length (contents s) == limit s) ≡ true
  length_full e = eq→== _ _ (omega (arith, length-contents v))

  length_room : count s.ctrl + 1 < s.ctrl.capacity → (length (contents s) == limit s) ≡ false
  length_room e = ne→== _ _ (omega (arith, length-contents v))

  room_of_ne : count s.ctrl + 1 ≢ s.ctrl.capacity → count s.ctrl + 1 < s.ctrl.capacity
  room_of_ne e = omega (arith, count-lt v)

  try_pop_empty :
      {h : Handle}
      → IsReader h s.ctrl
      → count s.ctrl ≡ 0
      → try_pop h s ≡ (false, none, refresh_write h s, s)
  unfolding try_pop
  try_pop_empty k dry = ap (copy_out s) (Single.front_empty v k dry)

  try_pop_some :
      {h : Handle}
      → IsReader h s.ctrl
      → 0 < count s.ctrl
      → try_pop h s ≡ (true, get_elem? s.slots s.ctrl.read_idx, Single.peeked v h, Single.popped v)
  unfolding try_pop
  try_pop_some {h} k wet =
      ap (copy_out s) (Single.front-some v k wet)
      ∙ ap (λ t. (true, get_elem? s.slots s.ctrl.read_idx, Single.peeked v h, t))
          (Single.pop_lem v (Single.peeked v h) (Single.peeked-keeps v k).same)

module _ {ℓ} {A : Type ℓ} {s : Shared A} {h : Handle} (v : IsRing s) where
  -- On a valid ring, from a handle whose cached read index shows no more room than there is,
  -- `try_push` pushes exactly when the queue has room.
  pub try_push_refines :
      (x : A)
      → IsWriter h s.ctrl
      → let (b, h', s') = try_push x h s in
        ((b, contents s') ≡ Queue.push (limit s) x (contents s)) × Produced s h' s'
  unfolding Queue.push
  try_push_refines x k = elim (ℕ_discrete (count s.ctrl + 1) s.ctrl.capacity) [
    | yes full ↦
        rw (Single.try_push_full v x k full, length_full v full)
          (
            refl,
            record {
              ring = v;
              writer = refresh_read-IsWriter v h k.same;
              readers = λ c i. i;
              fixed = refl;
            },
          )
    | no ne ↦
        let room = room_of_ne v ne in
        rw (Single.try_push_room v x k room, length_room v room)
          (
            ap (λ q. (true, q)) (Single.contents-push v x room),
            record {
              ring = Single.try_push-IsRing v x;
              writer = Single.pushed-IsWriter v x k room;
              readers = λ c i. Single.pushed-IsReader v x i room;
              fixed = refl;
            },
          )
  ]

  -- On a valid ring, from a handle of the ring's capacity whose cached read index is below it and
  -- shows no more room than there is, `push_n` of `n` elements, no more than the source has, pushes as
  -- many of them as there is room for, in order; the ring stays valid, the handle's cache and that of
  -- each consumer keep that condition, and the capacity stays.
  pub push_n_refines :
      (src : List A) (n : ℕ)
      → n ≤ length src
      → IsWriter h s.ctrl
      → let (m, h', s') = push_n src n h s in
        ((m, contents s') ≡ Queue.push_n (limit s) src n (contents s)) × Produced s h' s'
  unfolding Queue.push_n
  push_n_refines src n hs k =
      let m = min n (limit s - count s.ctrl) in
      rw (Batch.push_n_lem v src n k hs, length-contents v)
        (
          ap (λ q. (m, q)) (Batch.contents-pushed_run v src m (omega arith) (omega arith)),
          record {
            ring = Batch.pushed_run-IsRing v src m (omega arith);
            writer = Batch.push_n_handle-IsWriter v src n k;
            readers = λ c i. Batch.pushed_run-IsReader v src m i (omega arith);
            fixed = refl;
          },
        )

  -- On a valid ring, from a handle whose cached write index shows no more elements than there are,
  -- `front` points at the oldest element exactly when there is one, and takes nothing out.
  pub front_refines :
      IsReader h s.ctrl
      → let (p, h') = front h s in (pointee p s ≡ Queue.first (contents s)) × IsReader h' s.ctrl
  front_refines k = elim (ℕ_discrete (count s.ctrl) 0) [
    | yes dry ↦
        rw (Single.front_empty v k dry, Single.contents_empty v dry)
          (refl, refresh_write-IsReader v h k.same)
    | no wet ↦
        let (x, here, split) = Single.contents-pop v (omega arith) in
        rw (Single.front-some v k (omega arith)) (rw (here, split) refl, Single.peeked-keeps v k)
  ]

  -- Under the same conditions `try_pop` pops the oldest element exactly when there is one.
  pub try_pop_refines :
      IsReader h s.ctrl
      → let (b, out, h', s') = try_pop h s in
        ((b, out, contents s') ≡ Queue.pop (contents s)) × Consumed s h' s'
  unfolding Queue.pop
  try_pop_refines k = elim (ℕ_discrete (count s.ctrl) 0) [
    | yes dry ↦
        rw (try_pop_empty v k dry, Single.contents_empty v dry)
          (
            refl,
            record {
              ring = v;
              reader = refresh_write-IsReader v h k.same;
              writers = λ p i. i;
              fixed = refl;
            },
          )
    | no ne ↦
        let wet : 0 < count s.ctrl = omega arith in
        let (x, here, split) = Single.contents-pop v wet in
        rw (try_pop_some v k wet, here, split)
          (
            refl,
            record {
              ring = Single.popped-IsRing v;
              reader = Single.peeked-IsReader v k wet;
              writers = λ p i. Single.popped-IsWriter v i wet;
              fixed = refl;
            },
          )
  ]

  -- On a valid ring, from a handle of the ring's capacity whose cached write index is below it and
  -- shows no more elements than there are, `pop_n` takes as many elements as there are, up to `n`,
  -- oldest first; the ring stays valid, the handle's cache and that of each producer keep that
  -- condition, and the capacity stays.
  pub pop_n_refines :
      (n : ℕ)
      → IsReader h s.ctrl
      → let (m, out, h', s') = pop_n n h s in
        ((m, out, contents s') ≡ Queue.pop_n n (contents s)) × Consumed s h' s'
  unfolding Queue.pop_n
  pop_n_refines n k =
      let m = min n (count s.ctrl) in
      let len = ap (min n) (length-contents v) in
      let cut = ap (λ i. take i (contents s)) (sym len) ∙ take-min n (contents s) in
      let rest =
        Unbatch.contents-popped_run v m (omega arith)
        ∙ ap (λ i. drop i (contents s)) (sym len)
        ∙ drop-min n (contents s) in
      rw (Unbatch.pop_n_lem v n k) (
        (λ i. (sym len i, cut i, rest i)),
        record {
          ring = Unbatch.popped_run-IsRing v m (omega arith);
          reader = Unbatch.pop_n_handle-IsReader v n k;
          writers = λ p i. Unbatch.popped_run-IsWriter v m i (omega arith);
          fixed = refl;
        },
      )
