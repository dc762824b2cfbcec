-- ===== src/Memory/Slots.antt =====
-- The bytes of the slots, and what the steps of the two processes leave of their pointers.
use shm_spsc.Base.{
  ℕ, suc, ◌+◌, ◌*◌, ◌<◌, ◌≤◌, ◌≡◌, ◌≢◌, ◌⊎◌, refl, ap, ◌∙◌, inl, inr, some, List, Bool, true, false,
  if◌then◌else◌, arith,
}
use native.Mathlib.Nat.{mul-le-mul_right, suc-mul, add_assoc}
use native.Mathlib.Decide.{dec_lt}
use shm_spsc.Layout.{Binary}
use shm_spsc.Ring.{Segment, Handle}
use shm_spsc.Memory.{slot_pointer, element, IsMapped, IsInside}
use shm_spsc.Spsc.{
  latest, System, Producer, Consumer, begin_push, recheck_push, begin_push_n, recheck_push_n,
  begin_front, recheck_front, begin_pop_n, recheck_pop_n,
}
use shm_spsc.Spsc.Step.{ProducerStep, ConsumerStep}

module _ (size : ℕ) where
  pub element_end : (i cap : ℕ) → i < cap → i * size + size ≤ cap * size
  element_end i cap h =
      omega (arith, suc-mul i size, mul-le-mul_right {m = suc i} {n = cap} size (omega arith))

  -- The bytes of two different elements do not overlap.
  abbrev pub Apart : ℕ → ℕ → Type 0
  Apart i j = (i * size + size ≤ j * size) ⊎ (j * size + size ≤ i * size)

  pub elements-Apart : (i j : ℕ) → i ≢ j → Apart i j
  elements-Apart i j ne = elim (dec_lt i j) [
    | yes lt ↦ inl (element_end i j lt)
    | no ge ↦ inr (element_end j i (omega (arith, ne)))
  ]

module _ {b : Binary} {base offset capacity : ℕ} {h : Handle}
    (m : IsMapped b base offset capacity h) where
  pub slot-IsInside : (i : ℕ) → i < capacity → IsInside b base offset h i
  unfolding slot_pointer
  slot-IsInside i lt = record {
    pointer =
        ap (λ p. element p b.elem_size i) m.slots
        ∙ ap some (add_assoc base offset (i * b.elem_size));
    ends = omega (arith, m.room, element_end b.elem_size i capacity lt);
  }

-- The members that no operation on the ring changes.
pub record SamePointers (h h' : Handle) : Type 0 where
  pub slots : h'.slots ≡ h.slots
  pub seg : h'.seg ≡ h.seg

pub same : {h : Handle} → SamePointers h h
same = record { slots = refl; seg = refl }

-- A refreshed cache
read_same : {h : Handle} (r : ℕ) → SamePointers h (record h { read_idx_cache = r })
read_same r = record { slots = refl; seg = refl }

write_same : {h : Handle} (w : ℕ) → SamePointers h (record h { write_idx_cache = w })
write_same w = record { slots = refl; seg = refl }

pub SamePointers-trans : {h i j : Handle} → SamePointers h i → SamePointers i j → SamePointers h j
SamePointers-trans p q = record { slots = q.slots ∙ p.slots; seg = q.seg ∙ p.seg }

pub SamePointers-IsMapped :
    {b : Binary} {base offset capacity : ℕ} {h h' : Handle}
    → SamePointers h h'
    → IsMapped b base offset capacity h
    → IsMapped b base offset capacity h'
SamePointers-IsMapped p m = record {
  starts = ap (λ (g : Segment). g.addr) p.seg ∙ m.starts;
  slots = p.slots ∙ m.slots;
  room = omega (arith, ap (λ (g : Segment). g.size) p.seg, m.room);
}

if_lem {ℓ κ} :
    {X : Type ℓ} (P : X → Type κ) (test : Bool) (x y : X) → P x → P y → P (if test then x else y)
if_lem P true x y p q = p
if_lem P false x y p q = q

module _ {ℓ} {A : Type ℓ} where
  abbrev ProducerKeeps : (h : Handle) → Producer A → Type 0
  ProducerKeeps h p = SamePointers h p.handle

  abbrev ConsumerKeeps : (h : Handle) → Consumer A → Type 0
  ConsumerKeeps h c = SamePointers h c.handle

  begin_push_n-handle :
      (src : List A) (n w : ℕ) (p : Producer A) → (begin_push_n src n w p).handle ≡ p.handle
  unfolding begin_push_n
  begin_push_n-handle src n w p = ground arith

  begin_pop_n-handle : (n r : ℕ) (c : Consumer A) → (begin_pop_n n r c).handle ≡ c.handle
  unfolding begin_pop_n
  begin_pop_n-handle n r c = ground arith

  pub ProducerStep-same :
      {s t : System A} → ProducerStep s t → SamePointers s.producer.handle t.producer.handle
  unfolding begin_push recheck_push recheck_push_n
  ProducerStep-same {s} (ProducerStep.push x e) =
      if_lem (ProducerKeeps s.producer.handle) _ _ _ same same
  ProducerStep-same {s} (ProducerStep.recheck k e lo hi) =
      if_lem (ProducerKeeps s.producer.handle) _ _ _ (read_same (s.read.value k))
        (read_same (s.read.value k))
  ProducerStep-same {s} (ProducerStep.push_n src n h e) =
      rw (begin_push_n-handle src n (latest s.write) s.producer) same
  ProducerStep-same {s} (ProducerStep.recount k e lo hi) =
      if_lem (ProducerKeeps s.producer.handle) _ _ _ (read_same (s.read.value k))
        (read_same (s.read.value k))
  ProducerStep-same (ProducerStep.copy e) = same
  ProducerStep-same (ProducerStep.publish e) = same

  pub ConsumerStep-same :
      {s t : System A} → ConsumerStep s t → SamePointers s.consumer.handle t.consumer.handle
  unfolding begin_front recheck_front recheck_pop_n
  ConsumerStep-same {s} (ConsumerStep.front e) =
      if_lem (ConsumerKeeps s.consumer.handle) _ _ _ same same
  ConsumerStep-same {s} (ConsumerStep.recheck k e lo hi) =
      if_lem (ConsumerKeeps s.consumer.handle) _ _ _ (write_same (s.write.value k))
        (write_same (s.write.value k))
  ConsumerStep-same (ConsumerStep.look e) = same
  ConsumerStep-same (ConsumerStep.put_back e) = same
  ConsumerStep-same (ConsumerStep.pop e) = same
  ConsumerStep-same {s} (ConsumerStep.pop_n n e) =
      rw (begin_pop_n-handle n (latest s.read) s.consumer) same
  ConsumerStep-same {s} (ConsumerStep.recount k e lo hi) =
      if_lem (ConsumerKeeps s.consumer.handle) _ _ _ (write_same (s.write.value k))
        (write_same (s.write.value k))
  ConsumerStep-same (ConsumerStep.copy e) = same
  ConsumerStep-same (ConsumerStep.release e) = same
