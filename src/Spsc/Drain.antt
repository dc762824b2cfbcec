-- ===== src/Spsc/Drain.antt =====
-- Every step of the consumer keeps the invariant: the batches, and the release of slots.
use shm_spsc.Base.{
  ℕ, ◌+◌, ◌-◌, ◌<◌, ◌≤◌, ◌≡◌, refl, ap, ◌∙◌, inl, inr, Bool-cases, List, [], ◌++◌, arith, length,
  take, drop, ◌==◌, ltb, min, take-add,
}
use native.Mathlib.Nat.{add-zero}
use native.Mathlib.Numerals.{add-one}
use shm_spsc.Ring.{Handle, next_index, used_slots}
use shm_spsc.Spsc.{latest, store, ConsumerPc, Consumer, System, begin_pop_n, recheck_pop_n, drain}
use shm_spsc.Spsc.Places.{
  slot_of, slot_of-lt, next_index-slot_of, skip_index-slot_of, used_slots-slot_of,
}
use shm_spsc.Spsc.Runs.{length-places, run_reads_lem}
use shm_spsc.Spsc.Step.{ConsumerStep}
use shm_spsc.Spsc.Invariant.{ConsumerAt, ConsumerInv, Inv}
use shm_spsc.Spsc.Stores.{extend, extend_last, extend_old, store-IsIndex}
use shm_spsc.Spsc.Consume.{
  some_slot, r, near, shown, own_index, at_pc, loaded, begin_front-Inv, recheck_front-Inv, look_at,
  copy_at,
}

module _ {ℓ} {A : Type ℓ} {cap : ℕ} {s : System A} (v : Inv cap s) where
  -- `n` elements popped at once, their slots given back by the store.
  released :
      (n next : ℕ) (out : List A)
      → next ≡ slot_of cap (r v + n)
      → r v + n ≤ v.wt s.consumer.seen
      → out ≡ take n (drop (r v) s.sent)
      → Inv cap (record s {
        read = store next s.read;
        received = s.received ++ out;
        consumer = record s.consumer { pc = ConsumerPc.idle };
      })
  released n next out nx le o =
      let total = r v + n in
      let now = extend_last s.read v.rt total in
      let seen = extend_old s.read v.rt total s.producer.seen v.producer.seen_in in
      record {
        room = v.room;
        small = v.small;
        whole = v.whole;
        wt = v.wt;
        rt = extend s.read v.rt total;
        written = v.written;
        write_index = v.write_index;
        read_index = store-IsIndex next total v.read_index nx (omega arith);
        producer = record {
          same = v.producer.same;
          seen_in = omega (arith, v.producer.seen_in);
          cached = rw seen v.producer.cached;
          ahead = rw seen v.producer.ahead;
          at = rw seen v.producer.at;
        };
        consumer = record {
          same = v.consumer.same;
          seen_in = v.consumer.seen_in;
          cached = v.consumer.cached;
          behind = rw now le;
          at = tt;
        };
        published = v.published;
        delivered = rw (now, take-add (r v) n s.sent, v.delivered, o);
        stored = λ p lo hi. let lo' : r v + n ≤ p = rw now at lo in v.stored p (omega arith) hi;
      }

  count_lem :
      (k : ℕ)
      → (r v) ≤ v.wt k
      → k ≤ s.write.last
      → used_slots cap (slot_of cap (v.wt k)) (slot_of cap (r v)) ≡ v.wt k - (r v)
  count_lem k le known =
      used_slots-slot_of cap (some_slot v) v.small (r v) (v.wt k) le (near v k known)

  batch_at :
      (n lim : ℕ) (h : Handle)
      → h.capacity ≡ cap
      → n < cap
      → r v + n ≤ lim
      → ConsumerAt cap (r v) lim s.sent (drain n (slot_of cap (r v)) h)
  unfolding drain
  batch_at n lim h same short fits =
      let len = length-places cap (slot_of cap (r v)) n in
      rw
        (
          same,
          run_reads_lem cap n (slot_of cap (r v)) v.small (slot_of-lt cap (some_slot v) (r v))
              short,
          skip_index-slot_of cap (some_slot v) v.small (r v) n short,
        )
        (
          refl,
          rw (add-zero, len),
          ap (λ k. slot_of cap (r v + k)) (omega (arith, len)),
          omega (arith, len),
        )

  begin_pop_n-Inv :
      (n : ℕ) → ConsumerInv cap (r v) s.write v.wt s.sent (begin_pop_n n (latest s.read) s.consumer)
  unfolding begin_pop_n
  begin_pop_n-Inv n =
      let known : used_slots s.consumer.handle.capacity s.consumer.handle.write_idx_cache
            (slot_of cap (r v))
          ≡ v.wt s.consumer.seen - r v =
        rw (v.consumer.same, v.consumer.cached)
          (count_lem s.consumer.seen v.consumer.behind v.consumer.seen_in) in
      rw ((own_index v), known)
        (elim (Bool-cases (n == 0)) [
          | inl z ↦ rw z v.consumer
          | inr any ↦ elim (Bool-cases (ltb (v.wt s.consumer.seen - (r v)) n)) [
            | inl short ↦ rw (any, short) (at_pc v _ (refl, tt))
            | inr enough ↦
                rw (any, enough)
                  (at_pc v _ (
                    batch_at (min n (v.wt s.consumer.seen - (r v))) _ s.consumer.handle
                      v.consumer.same
                      (omega (arith, near v s.consumer.seen v.consumer.seen_in, v.room))
                      (omega (arith, v.consumer.behind))))
          ]
        ])

  recheck_pop_n-Inv :
      (n i k : ℕ)
      → s.consumer.pc ≡ ConsumerPc.recounting n i
      → s.consumer.seen ≤ k
      → k ≤ s.write.last
      → ConsumerInv cap (r v) s.write v.wt s.sent (recheck_pop_n n i k (s.write.value k) s.consumer)
  unfolding recheck_pop_n
  recheck_pop_n-Inv n i k e newer known =
      let (ei, _) = rw e at v.consumer.at in
      let avail : used_slots s.consumer.handle.capacity (s.write.value k) i ≡ v.wt k - r v =
        rw (v.consumer.same, ei, v.write_index.placed k known)
          (count_lem k (shown v k newer known) known) in
      rw avail (elim (Bool-cases ((v.wt k - (r v)) == 0)) [
        | inl dry ↦ rw dry (loaded v k ConsumerPc.idle newer known tt)
        | inr some_left ↦ rw some_left (
            loaded v k _ newer known (
              rw ei (
                batch_at (min n (v.wt k - (r v))) _
                  (record s.consumer.handle { write_idx_cache = s.write.value k }) v.consumer.same
                  (omega (arith, near v k known, v.room)) (omega (arith, shown v k newer known)))))
      ])

  -- A consumer that stands somewhere else.
  pub moved :
      (c : Consumer A)
      → ConsumerInv cap (r v) s.write v.wt s.sent c
      → Inv cap (record s { consumer = c })
  moved c i = record {
    room = v.room;
    small = v.small;
    whole = v.whole;
    wt = v.wt;
    rt = v.rt;
    written = v.written;
    write_index = v.write_index;
    read_index = v.read_index;
    producer = v.producer;
    consumer = i;
    published = v.published;
    delivered = v.delivered;
    stored = v.stored;
  }

  pop-Inv :
      (i : ℕ) (out : List A)
      → s.consumer.pc ≡ ConsumerPc.looked i out
      → Inv cap (record s {
        read = store (next_index s.consumer.handle.capacity (latest s.read)) s.read;
        received = s.received ++ out;
        consumer = record s.consumer { pc = ConsumerPc.idle };
      })
  pop-Inv i out e =
      let (_, lt, o) = rw e at v.consumer.at in
      let next : next_index s.consumer.handle.capacity (latest s.read) ≡ slot_of cap (r v + 1) =
        rw (v.consumer.same, (own_index v), add-one)
          (next_index-slot_of cap (some_slot v) v.small (r v)) in
      released 1 _ out next (omega arith) o

  release-Inv :
      (next : ℕ) (out : List A)
      → s.consumer.pc ≡ ConsumerPc.draining [] out next
      → Inv cap (record s {
        read = store next s.read;
        received = s.received ++ out;
        consumer = record s.consumer { pc = ConsumerPc.idle };
      })
  release-Inv next out e =
      let (o, _, nx, le) = rw e at v.consumer.at in
      released (length out) next out (nx ∙ ap (λ k. slot_of cap (r v + k)) (add-zero (length out)))
        (omega arith) o

-- Every step of the consumer keeps the invariant.
pub ConsumerStep-Inv {ℓ} :
    {A : Type ℓ} {cap : ℕ} {s t : System A} → ConsumerStep s t → Inv cap s → Inv cap t
ConsumerStep-Inv (ConsumerStep.front e) v = moved v _ (begin_front-Inv v)
ConsumerStep-Inv (ConsumerStep.recheck {r = i} k e newer known) v =
    moved v _ (recheck_front-Inv v i k e newer known)
ConsumerStep-Inv (ConsumerStep.look {r = i} e) v = moved v _ (at_pc v _ (look_at v i e))
ConsumerStep-Inv (ConsumerStep.put_back e) v = moved v _ (at_pc v _ tt)
ConsumerStep-Inv (ConsumerStep.pop {r = i} {out} e) v = pop-Inv v i out e
ConsumerStep-Inv (ConsumerStep.pop_n n e) v = moved v _ (begin_pop_n-Inv v n)
ConsumerStep-Inv (ConsumerStep.recount {n} {r = i} k e newer known) v =
    moved v _ (recheck_pop_n-Inv v n i k e newer known)
ConsumerStep-Inv (ConsumerStep.copy {i} {next} {todo} {out} e) v =
    moved v _ (at_pc v _ (copy_at v i next todo out e))
ConsumerStep-Inv (ConsumerStep.release {next} {out} e) v = release-Inv v next out e
