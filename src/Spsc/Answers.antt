-- ===== src/Spsc/Answers.antt =====
-- What the two processes learn from the loads of `try_push` and `front`, and from the pointer that
-- `front` returns, whatever the peer is doing at the time.
use shm_spsc.Base.{
  ℕ, suc, ◌+◌, ◌<◌, ◌≤◌, ◌≡◌, ◌↔◌, sym, ap, ◌∙◌, List, [], ◌∷◌, refl, some, arith, length,
  get_elem?, get_elem?-append_left, length-append, ◌≢◌, eq→==, ne→==,
}
use native.Mathlib.Decide.{dec_lt, ℕ_discrete}
use shm_spsc.Ring.{Handle}
use shm_spsc.Spsc.{
  latest, ProducerPc, ConsumerPc, Producer, Consumer, System, recheck_push, recheck_front,
}
use shm_spsc.Spsc.Places.{slot_of, slot_of-ne, slot_of_round}
use shm_spsc.Spsc.Step.{fresh, Reach}
use shm_spsc.Spsc.Safety.{
  IsFresh, Reach-Inv, length-received, lead_lt, read_le, some_slot, consumer_limit,
}

get_elem?-in {ℓ} :
    {A : Type ℓ} (xs : List A) (i : ℕ) → i < length xs → (x : A) × (get_elem? xs i ≡ some x)
get_elem?-in [] i h = absurd (omega arith)
get_elem?-in (x ∷ xs) ℕ.zero h = (x, refl)
get_elem?-in (x ∷ xs) (suc i) h = get_elem?-in xs i (omega arith)

strictly : {m n : ℕ} → m ≤ n → m ≢ n → m < n
strictly le ne = omega arith

module _ (cap : ℕ) (some_slot : 0 < cap) where
  -- Two positions at most a round apart share a slot only when they are one round apart, or equal.
  same_slot_round :
      (p q : ℕ) → p < q → q ≤ p + cap → (slot_of cap q ≡ slot_of cap p) ↔ (q ≡ p + cap)
  same_slot_round p q lt near = (forth, slot_of_round cap some_slot p q)
    where
      forth : slot_of cap q ≡ slot_of cap p → q ≡ p + cap
      forth e = elim (dec_lt q (p + cap)) [
        | yes h ↦ absurd (slot_of-ne cap some_slot p q lt h e)
        | no h ↦ omega arith
      ]

  same_slot_here : (p q : ℕ) → p ≤ q → q < p + cap → (slot_of cap p ≡ slot_of cap q) ↔ (p ≡ q)
  same_slot_here p q le near = (forth, ap (slot_of cap))
    where
      forth : slot_of cap p ≡ slot_of cap q → p ≡ q
      forth e = elim (dec_lt p q) [
        | yes h ↦ absurd (slot_of-ne cap some_slot p q h near (sym e))
        | no h ↦ omega arith
      ]

module _ {ℓ} {A : Type ℓ} where
  idle_filling :
      {todo : List (ℕ × A)} {batch : List A} {next : ℕ}
      → ProducerPc.idle ≡ ProducerPc.filling todo batch next
      → ⊥
  idle_filling e = cc

  idle_holding : (a : ConsumerPc A) {r : ℕ} → a ≡ ConsumerPc.idle → a ≡ ConsumerPc.holding r → ⊥
  idle_holding a e e' = cc

  -- What `try_push` answers behind its load, by what that load has shown.
  recheck_push_iff :
      (x : A) (w next k r : ℕ) (p : Producer A) {m n : ℕ}
      → (next ≡ r) ↔ (m ≡ n)
      → m ≤ n
      → let pc = (recheck_push x w next k r p).pc in
        ((pc ≡ ProducerPc.idle) ↔ (m ≡ n))
        × ((pc ≡ ProducerPc.filling ((w, x) ∷ []) (x ∷ []) next) ↔ (m < n))
  unfolding recheck_push
  recheck_push_iff x w next k r p same le = elim (ℕ_discrete next r) [
    | yes hit ↦
        let full = same.0 hit in
        rw (eq→== _ _ hit) (
          ((λ _. full), λ _. refl),
          ((λ e. absurd (idle_filling e)), λ lt. absurd (omega (arith, full, lt))),
        )
    | no miss ↦
        let room = strictly le (λ e. miss (same.1 e)) in
        rw (ne→== _ _ miss) (
          ((λ e. absurd (idle_filling (sym e))), λ e. absurd (miss (same.1 e))),
          ((λ _. room), λ _. refl),
        )
  ]

  -- What `front` answers behind its load.
  recheck_front_iff :
      (r k w : ℕ) (c : Consumer A) {m n : ℕ}
      → (r ≡ w) ↔ (m ≡ n)
      → m ≤ n
      → let pc = (recheck_front r k w c).pc in
        ((pc ≡ ConsumerPc.idle) ↔ (m ≡ n)) × ((pc ≡ ConsumerPc.holding r) ↔ (m < n))
  unfolding recheck_front
  recheck_front_iff r k w c same le = elim (ℕ_discrete r w) [
    | yes hit ↦
        let dry = same.0 hit in
        rw (eq→== _ _ hit) (
          ((λ _. dry), λ _. refl),
          ((λ e. absurd (idle_holding _ refl e)), λ lt. absurd (omega (arith, dry, lt))),
        )
    | no miss ↦
        let wet = strictly le (λ e. miss (same.1 e)) in
        rw (ne→== _ _ miss) (
          ((λ e. absurd (idle_holding _ e refl)), λ e. absurd (miss (same.1 e))),
          ((λ _. wet), λ _. refl),
        )
  ]

module _ {ℓ} {A : Type ℓ} {cap : ℕ} {slots : List A} {p c : Handle}
    (f : IsFresh cap slots p c) where
  -- In every reachable state where `try_push` is about to load the read index, the load of its latest
  -- store makes the call return false, with nothing done, exactly when `capacity - 1` elements are in
  -- the queue, and go on to write its element and publish it exactly when there are fewer.
  pub full_iff :
      (s : System A)
      → Reach (fresh slots p c) s
      → (x : A) (w next : ℕ) → s.producer.pc ≡ ProducerPc.checking x w next
      → let pc = (recheck_push x w next s.read.last (latest s.read) s.producer).pc in
        ((pc ≡ ProducerPc.idle) ↔ (suc (length s.sent) ≡ length s.received + cap))
        × ((pc ≡ ProducerPc.filling ((w, x) ∷ []) (x ∷ []) next)
            ↔ (suc (length s.sent) < length s.received + cap))
  full_iff s reach x w next e =
      let v = Reach-Inv f reach in
      let (_, _, en) = rw e at v.producer.at in
      recheck_push_iff x w next s.read.last (latest s.read) s.producer
        (rw (en, v.read_index.placed s.read.last (omega arith), sym v.published, length-received v)
          (same_slot_round cap (some_slot v) (v.rt s.read.last) (suc (length s.sent))
            (omega (arith, read_le v)) (omega (arith, lead_lt v))))
        (omega (arith, length-received v, lead_lt v))

  -- In every reachable state where `front` is about to load the write index, the load of its latest
  -- store makes the call return null exactly when no element is in the queue, and the address of slot
  -- `r` exactly when there is one.
  pub empty_iff :
      (s : System A)
      → Reach (fresh slots p c) s
      → (r : ℕ) → s.consumer.pc ≡ ConsumerPc.checking r
      → let pc = (recheck_front r s.write.last (latest s.write) s.consumer).pc in
        ((pc ≡ ConsumerPc.idle) ↔ (length s.received ≡ length s.sent))
        × ((pc ≡ ConsumerPc.holding r) ↔ (length s.received < length s.sent))
  empty_iff s reach r e =
      let v = Reach-Inv f reach in
      let (er, _) = rw e at v.consumer.at in
      recheck_front_iff r s.write.last (latest s.write) s.consumer
        (rw
          (er, v.write_index.placed s.write.last (omega arith), sym v.published, length-received v)
          (same_slot_here cap (some_slot v) (v.rt s.read.last) (length s.sent) (read_le v)
            (lead_lt v)))
        (omega (arith, length-received v, read_le v))

  -- In every reachable state between `front` and the read through its pointer, the slot that it
  -- points to holds the oldest element sent and not yet received.
  pub front_pointer :
      (s : System A)
      → Reach (fresh slots p c) s
      → (i : ℕ) → s.consumer.pc ≡ ConsumerPc.holding i
      → (x : A) × (get_elem? s.slots i ≡ some x) × (get_elem? s.sent (length s.received) ≡ some x)
  front_pointer s reach i e =
      let v = Reach-Inv f reach in
      let (ei, lt, _) = rw e at v.consumer.at in
      let inside : v.rt s.read.last < length s.sent = omega (arith, consumer_limit v) in
      let (x, ex) = get_elem?-in s.sent (v.rt s.read.last) inside in
      let here =
        v.stored (v.rt s.read.last) (omega arith)
          (omega (arith, inside, length-append s.sent v.written)) in
      (
        x,
        rw ei (here ∙ get_elem?-append_left s.sent v.written (v.rt s.read.last) inside ∙ ex),
        rw (length-received v) ex,
      )
