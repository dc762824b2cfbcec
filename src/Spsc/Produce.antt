-- ===== src/Spsc/Produce.antt =====
-- include/shmspsc/ShmSpscQueue.h: `try_push` up to its copy, and the invariant.
use shm_spsc.Base.{
  ℕ, suc, ◌+◌, ◌<◌, ◌≤◌, ◌≡◌, ◌≢◌, refl, inl, inr, Bool-cases, [], ◌∷◌, arith, ◌==◌, ==-ne,
}
use native.Mathlib.Decide.{ℕ_discrete}
use native.Mathlib.Nat.{add-zero}
use native.Mathlib.Numerals.{add-one}
use shm_spsc.Ring.{next_index}
use shm_spsc.Spsc.{latest, ProducerPc, Producer, System, begin_push, recheck_push}
use shm_spsc.Spsc.Places.{slot_of, slot_of_round, next_index-slot_of}
use shm_spsc.Spsc.Runs.{spots}
use shm_spsc.Spsc.Invariant.{ProducerAt, ProducerInv, Inv}

module _ {ℓ} {A : Type ℓ} {cap : ℕ} {s : System A} (v : Inv cap s) where
  pub some_slot : 0 < cap
  some_slot = omega (arith, v.room)

  -- How many elements have been published.
  abbrev pub w : ℕ
  w = v.wt s.write.last

  abbrev r : ℕ
  r = v.rt s.read.last

  -- No load of the read index shows more than has been popped, and that no more than was published.
  pub popped-le : (k : ℕ) → k ≤ s.read.last → v.rt k ≤ w
  popped-le k h = omega (
    arith,
    v.read_index.grows k s.read.last h (omega arith),
    v.consumer.behind,
    v.write_index.grows s.consumer.seen s.write.last v.consumer.seen_in (omega arith),
  )

  -- One more element fits behind store `k` of the read index unless the test of `try_push` says no.
  has_room :
      (k : ℕ) → w < v.rt k + cap → slot_of cap (suc w) ≢ slot_of cap (v.rt k) → suc w < v.rt k + cap
  has_room k near ne = elim (ℕ_discrete (suc w) (v.rt k + cap)) [
    | yes e ↦ absurd (ne (slot_of_round cap some_slot (v.rt k) (suc w) e))
    | no ne_round ↦ omega arith
  ]

  pub own_index : latest s.write ≡ slot_of cap w
  own_index = v.write_index.placed s.write.last (omega arith)

  own_next : next_index s.producer.handle.capacity (latest s.write) ≡ slot_of cap (suc w)
  own_next = rw (v.producer.same, own_index) (next_index-slot_of cap some_slot v.small w)

  -- The producer, still with what it had loaded, at `pc`.
  pub at_pc :
      (pc : ProducerPc A)
      → ProducerAt cap w (v.rt s.producer.seen + cap) v.written pc
      → ProducerInv cap w s.read v.rt v.written (record s.producer { pc = pc })
  at_pc pc a = record {
    same = v.producer.same;
    seen_in = v.producer.seen_in;
    cached = v.producer.cached;
    ahead = v.producer.ahead;
    at = a;
  }

  -- The producer after an acquire load that returned store `k`.
  pub loaded :
      (k : ℕ) (pc : ProducerPc A)
      → s.producer.seen ≤ k
      → k ≤ s.read.last
      → ProducerAt cap w (v.rt k + cap) v.written pc
      → ProducerInv cap w s.read v.rt v.written (record {
        handle = record s.producer.handle { read_idx_cache = s.read.value k };
        pc = pc;
        seen = k;
      })
  loaded k pc newer known a = record {
    same = v.producer.same;
    seen_in = known;
    cached = v.read_index.placed k known;
    ahead = omega (arith, v.producer.ahead, v.read_index.grows s.producer.seen k newer known);
    at = a;
  }

  one_element :
      (x : A) (lim : ℕ)
      → v.written ≡ []
      → suc w < lim
      → ProducerAt cap w lim v.written
          (ProducerPc.filling ((slot_of cap w, x) ∷ []) (x ∷ []) (slot_of cap (suc w)))
  unfolding spots
  one_element x lim none_yet fits =
      (x ∷ [], rw none_yet, rw (none_yet, add-zero), rw add-one, omega arith)

  pub begin_push-Inv :
      (x : A)
      → v.written ≡ []
      → ProducerInv cap w s.read v.rt v.written (begin_push x (latest s.write) s.producer)
  unfolding begin_push
  begin_push-Inv x none_yet =
      rw (own_next, own_index)
        (elim (Bool-cases (slot_of cap (suc w) == s.producer.handle.read_idx_cache)) [
          | inl hit ↦ rw hit (at_pc _ (none_yet, refl, refl))
          | inr miss ↦ rw miss (
              at_pc _ (
                one_element x _ none_yet (
                  has_room s.producer.seen v.producer.ahead
                    (rw v.producer.cached at (==-ne _ _ miss)))))
        ])

  pub recheck_push-Inv :
      (x : A) (i next k : ℕ)
      → s.producer.pc ≡ ProducerPc.checking x i next
      → s.producer.seen ≤ k
      → k ≤ s.read.last
      → ProducerInv cap w s.read v.rt v.written
          (recheck_push x i next k (s.read.value k) s.producer)
  unfolding recheck_push
  recheck_push-Inv x i next k e newer known =
      let (none_yet, ei, en) = rw e at v.producer.at in
      let value = v.read_index.placed k known in
      elim (Bool-cases (next == s.read.value k)) [
        | inl hit ↦ rw hit (loaded k ProducerPc.idle newer known none_yet)
        | inr miss ↦ rw miss (
            loaded k _ newer known (
              rw (ei, en)
                (one_element x _ none_yet (
                  has_room k
                    (omega
                      (arith, v.producer.ahead, v.read_index.grows s.producer.seen k newer known))
                    (rw (en, value) at (==-ne _ _ miss))))))
      ]

  -- A producer that has loaded nothing new and stands somewhere else.
  pub moved :
      (p : Producer A)
      → ProducerInv cap w s.read v.rt v.written p
      → Inv cap (record s { producer = p })
  moved p i = record {
    room = v.room;
    small = v.small;
    whole = v.whole;
    wt = v.wt;
    rt = v.rt;
    written = v.written;
    write_index = v.write_index;
    read_index = v.read_index;
    producer = i;
    consumer = v.consumer;
    published = v.published;
    delivered = v.delivered;
    stored = v.stored;
  }
