-- ===== src/Spsc/Consume.antt =====
-- Where a step of the consumer leaves it: `front`, and the reads.
use shm_spsc.Base.{
  ℕ, zero, suc, ◌+◌, ◌<◌, ◌≤◌, ◌≡◌, ◌≢◌, refl, sym, ap, ap₂, ◌∙◌, inl, inr, Bool-cases, List, [],
  ◌∷◌, ◌++◌, arith, length, take, drop, get_elem?, length-append, ◌==◌, ==-ne, take-add, drop-drop,
  get_elem?-append_left, length-take, length-drop,
}
use native.Mathlib.Decide.{ℕ_discrete}
use native.Mathlib.Nat.{add-zero}
use shm_spsc.Ring.Window.{cons?}
use shm_spsc.Ring.Index.{advance}
use shm_spsc.Spsc.{latest, ConsumerPc, System, begin_front, recheck_front}
use shm_spsc.Spsc.Places.{slot_of, slot_of-add}
use shm_spsc.Spsc.Runs.{places}
use shm_spsc.Spsc.Step.{read_slot}
use shm_spsc.Spsc.Invariant.{ConsumerAt, ConsumerInv, Inv}

take-one {ℓ} : {A : Type ℓ} (r : ℕ) (xs : List A) → cons? (get_elem? xs r) [] ≡ take 1 (drop r xs)
take-one zero [] = refl
take-one (suc r) [] = refl
take-one zero (x ∷ xs) = refl
take-one (suc r) (x ∷ xs) = take-one r xs

module _ {ℓ} {A : Type ℓ} {cap : ℕ} {s : System A} (v : Inv cap s) where
  pub some_slot : 0 < cap
  some_slot = omega (arith, v.room)

  abbrev pub w : ℕ
  w = v.wt s.write.last

  -- How many elements have been popped.
  abbrev pub r : ℕ
  r = v.rt s.read.last

  -- Every load of the write index shows at most a full ring.
  pub near : (k : ℕ) → k ≤ s.write.last → v.wt k < r + cap
  near k h = omega (
    arith,
    v.write_index.grows k s.write.last h (omega arith),
    v.producer.ahead,
    v.read_index.grows s.producer.seen s.read.last v.producer.seen_in (omega arith),
  )

  pub shown : (k : ℕ) → s.consumer.seen ≤ k → k ≤ s.write.last → r ≤ v.wt k
  shown k newer known =
      omega (arith, v.consumer.behind, v.write_index.grows s.consumer.seen k newer known)

  pub own_index : latest s.read ≡ slot_of cap r
  own_index = v.read_index.placed s.read.last (omega arith)

  pub at_pc :
      (pc : ConsumerPc A)
      → ConsumerAt cap r (v.wt s.consumer.seen) s.sent pc
      → ConsumerInv cap r s.write v.wt s.sent (record s.consumer { pc = pc })
  at_pc pc a = record {
    same = v.consumer.same;
    seen_in = v.consumer.seen_in;
    cached = v.consumer.cached;
    behind = v.consumer.behind;
    at = a;
  }

  pub loaded :
      (k : ℕ) (pc : ConsumerPc A)
      → s.consumer.seen ≤ k
      → k ≤ s.write.last
      → ConsumerAt cap r (v.wt k) s.sent pc
      → ConsumerInv cap r s.write v.wt s.sent (record {
        handle = record s.consumer.handle { write_idx_cache = s.write.value k };
        pc = pc;
        seen = k;
      })
  loaded k pc newer known a = record {
    same = v.consumer.same;
    seen_in = known;
    cached = v.write_index.placed k known;
    behind = shown k newer known;
    at = a;
  }

  -- The test of `front` fails only if the load shows an element.
  pub has_element : (k : ℕ) → r ≤ v.wt k → slot_of cap r ≢ slot_of cap (v.wt k) → r < v.wt k
  has_element k le ne = elim (ℕ_discrete r (v.wt k)) [
    | yes e ↦ absurd (ne (ap (slot_of cap) e))
    | no other ↦ omega arith
  ]

  pub begin_front-Inv :
      ConsumerInv cap r s.write v.wt s.sent (begin_front (latest s.read) s.consumer)
  unfolding begin_front
  begin_front-Inv =
      rw own_index (elim (Bool-cases (slot_of cap r == s.consumer.handle.write_idx_cache)) [
        | inl hit ↦ rw hit (at_pc _ (refl, tt))
        | inr miss ↦ rw miss (
            at_pc _ (
              refl,
              has_element s.consumer.seen v.consumer.behind
                  (rw v.consumer.cached at (==-ne _ _ miss)),
              tt,
            ))
      ])

  pub recheck_front-Inv :
      (i k : ℕ)
      → s.consumer.pc ≡ ConsumerPc.checking i
      → s.consumer.seen ≤ k
      → k ≤ s.write.last
      → ConsumerInv cap r s.write v.wt s.sent (recheck_front i k (s.write.value k) s.consumer)
  unfolding recheck_front
  recheck_front-Inv i k e newer known =
      let (ei, _) = rw e at v.consumer.at in
      let value = v.write_index.placed k known in
      elim (Bool-cases (i == s.write.value k)) [
        | inl hit ↦ rw hit (loaded k ConsumerPc.idle newer known tt)
        | inr miss ↦ rw miss (
            loaded k _ newer known
              (ei, has_element k (shown k newer known) (rw (ei, value) at (==-ne _ _ miss)), tt))
      ]

  -- What a copy out of the slots reads: the next element of the stream.
  pub read_lem :
      (n : ℕ)
      → r + n < w
      → take n (drop r s.sent) ++ read_slot s.slots (slot_of cap (r + n))
        ≡ take (n + 1) (drop r s.sent)
  read_lem n h =
      let in_sent : r + n < length s.sent = omega (arith, v.published) in
      let here =
        v.stored (r + n) (omega arith) (omega (arith, length-append s.sent v.written))
        ∙ get_elem?-append_left s.sent v.written (r + n) in_sent in
      ap (λ o. take n (drop r s.sent) ++ cons? o []) here
      ∙ ap (λ l. take n (drop r s.sent) ++ l)
          (take-one (r + n) s.sent ∙ ap (take 1) (sym (drop-drop n r s.sent)))
      ∙ sym (take-add n 1 (drop r s.sent))

  pub known_le : v.wt s.consumer.seen ≤ w
  known_le = v.write_index.grows s.consumer.seen s.write.last v.consumer.seen_in (omega arith)

  pub look_at :
      (i : ℕ)
      → s.consumer.pc ≡ ConsumerPc.holding i
      → ConsumerAt cap r (v.wt s.consumer.seen) s.sent (ConsumerPc.looked i (read_slot s.slots i))
  look_at i e =
      let (ei, lt, _) = rw e at v.consumer.at in
      (
        ei,
        lt,
        ap (read_slot s.slots) (ei ∙ sym (ap (slot_of cap) (add-zero r)))
            ∙ read_lem 0 (omega (arith, known_le)),
      )

  pub copy_at :
      (i next : ℕ) (todo : List ℕ) (out : List A)
      → s.consumer.pc ≡ ConsumerPc.draining (i ∷ todo) out next
      → ConsumerAt cap r
          (v.wt s.consumer.seen)
          s.sent
          (ConsumerPc.draining todo (out ++ read_slot s.slots i) next)
  unfolding places
  copy_at i next todo out e =
      let (o, t, nx, le) = rw e at v.consumer.at in
      let here : i ≡ slot_of cap (r + length out) = cc in
      let after : todo ≡ places cap (advance cap (slot_of cap (r + length out)) 1) (length todo) =
        cc in
      let read : out ++ read_slot s.slots i ≡ take (length out + 1) (drop r s.sent) =
        ap₂ (λ a k. a ++ read_slot s.slots k) o here
        ∙ read_lem (length out) (omega (arith, known_le)) in
      let len : length (out ++ read_slot s.slots i) ≡ length out + 1 = omega (
        arith,
        ap length read,
        length-take (length out + 1) (drop r s.sent),
        length-drop r s.sent,
        known_le,
        v.published,
      ) in
      let step : r + length (out ++ read_slot s.slots i) ≡ (r + length out) + 1 = omega arith in
      (
        read ∙ ap (λ k. take k (drop r s.sent)) (sym len),
        after
            ∙ ap (λ k. places cap k (length todo))
                (sym
                  (ap (slot_of cap) step ∙ slot_of-add cap some_slot (r + length out) 1 some_slot)),
        nx ∙ ap (slot_of cap) (omega arith),
        omega arith,
      )
