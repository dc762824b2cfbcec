-- ===== src/Calls/Effects.antt =====
-- What single calls on two handles and their ring do to its contents.
use shm_spsc.Base.{
  ℕ, ◌-◌, ◌<◌, ◌≤◌, ◌≡◌, refl, sym, ap, ◌∙◌, ◌⊎◌, inl, inr, Bool, true, false, Option, some, List,
  [], ◌∷◌, ◌++◌, length, take, drop, arith, min, Bool-cases, ◌==◌, ==_iff,
}
use shm_spsc.Queue
use shm_spsc.Ring.{Handle, Shared}
use shm_spsc.Ring.Invariant.{contents}
use shm_spsc.Ring.Refine.{
  limit, Produced, Consumed, try_push_refines, push_n_refines, try_pop_refines, pop_n_refines,
}
use shm_spsc.Calls.{Link, push_one, push_all, pop_one, pop_all}
use shm_spsc.Calls.Refine.{IsLink}

-- The elements between the two handles, and how many fit.
abbrev pub held {ℓ} : {A : Type ℓ} → Link A → List A
held l = contents l.shared

abbrev pub room_of {ℓ} : {A : Type ℓ} → Link A → ℕ
room_of l = limit l.shared

-- Two handles on the same ring, after a call.
pub record After {ℓ} {A : Type ℓ} (l l' : Link A) (q : List A) : Type ℓ where
  pub link : IsLink l'
  pub same : room_of l' ≡ room_of l
  pub now : held l' ≡ q

module _ {ℓ} {A : Type ℓ} where
  queue_push-cases :
      (limit : ℕ) (x : A) (q q' : List A) (b : Bool)
      → (b, q') ≡ Queue.push limit x q
      → ((b ≡ true) × (q' ≡ q ++ x ∷ [])) ⊎ ((b ≡ false) × (q' ≡ q) × (length q ≡ limit))
  unfolding Queue.push
  queue_push-cases limit x q q' b e = elim (Bool-cases (length q == limit)) [
    | inl full ↦
        let e' = rw full at e in
        inr (ap (λ t. t.0) e', ap (λ t. t.1) e', (==_iff (length q) limit).0 full)
    | inr room ↦ let e' = rw room at e in inl (ap (λ t. t.0) e', ap (λ t. t.1) e')
  ]

  queue_pop-cases :
      (q q' : List A) (b : Bool) (out : Option A)
      → (b, out, q') ≡ Queue.pop q
      → ((x : A) × (b ≡ true) × (out ≡ some x) × (q ≡ x ∷ q'))
        ⊎ ((b ≡ false) × (q ≡ []) × (q' ≡ []))
  unfolding Queue.pop
  queue_pop-cases [] q' b out e = inr (ap (λ t. t.0) e, refl, ap (λ t. t.2) e)
  queue_pop-cases (x ∷ q) q' b out e =
      inl (x, ap (λ t. t.0) e, ap (λ t. t.1) e, ap (◌∷◌ x) (sym (ap (λ t. t.2) e)))

module _ {ℓ} {A : Type ℓ} (l : Link A) (v : IsLink l) where
  pub room_of-positive : 0 < room_of l
  room_of-positive = omega (arith, v.ring.room)

  produced :
      {h : Handle} {s : Shared A}
      → Produced l.shared h s
      → IsLink (record l { producer = h; shared = s })
  produced p = record { ring = p.ring; writer = p.writer; reader = p.readers l.consumer v.reader }

  consumed :
      {h : Handle} {s : Shared A}
      → Consumed l.shared h s
      → IsLink (record l { consumer = h; shared = s })
  consumed p = record { ring = p.ring; writer = p.writers l.producer v.writer; reader = p.reader }

  -- `try_push` appends its element or finds the ring full.
  pub push_one-cases :
      (x : A)
      → let (b, l') = push_one x l in
        ((b ≡ true) × After l l' (held l ++ x ∷ []))
        ⊎ ((b ≡ false) × (length (held l) ≡ room_of l) × After l l' (held l))
  unfolding push_one
  push_one-cases x =
      let (e, p) = try_push_refines v.ring x v.writer in
      let fixed = ap (λ k. k - 1) p.fixed in
      elim (queue_push-cases _ x _ _ _ e) [
        | inl (b, q) ↦ inl (b, record { link = produced p; same = fixed; now = q })
        | inr (b, q, full) ↦ inr (b, full, record { link = produced p; same = fixed; now = q })
      ]

  -- `push_n` appends as many of its elements as fit.
  pub push_all_lem :
      (src : List A) (n : ℕ)
      → n ≤ length src
      → let (k, l') = push_all src n l in
        (k ≡ min n (room_of l - length (held l))) × After l l' (held l ++ take k src)
  unfolding push_all Queue.push_n
  push_all_lem src n h =
      let (e, p) = push_n_refines v.ring src n h v.writer in
      let k = ap (λ (t : ℕ × List A). t.0) e in
      (
        k,
        record {
          link = produced p;
          same = ap (λ k. k - 1) p.fixed;
          now = ap (λ (t : ℕ × List A). t.1) e ∙ ap (λ i. held l ++ take i src) (sym k);
        },
      )

  -- `try_pop` takes the oldest element or finds none.
  pub pop_one-cases :
      let (b, out, l') = pop_one l in
      ((x : A) × (b ≡ true) × (out ≡ some x) × (q : List A) × (held l ≡ x ∷ q) × After l l' q)
      ⊎ ((b ≡ false) × (held l ≡ []) × After l l' (held l))
  unfolding pop_one
  pop_one-cases =
      let (e, p) = try_pop_refines v.ring v.reader in
      let fixed = ap (λ k. k - 1) p.fixed in
      elim (queue_pop-cases _ _ _ _ e) [
        | inl (x, b, o, q) ↦
            inl (x, b, o, _, q, record { link = consumed p; same = fixed; now = refl })
        | inr (b, dry, q) ↦
            inr (b, dry, record { link = consumed p; same = fixed; now = q ∙ sym dry })
      ]

  -- `pop_n` takes as many of the oldest elements as there are.
  pub pop_all_lem :
      (n : ℕ)
      → let (k, out, l') = pop_all n l in
        (k ≡ min n (length (held l))) × (out ≡ take n (held l)) × After l l' (drop n (held l))
  unfolding pop_all Queue.pop_n
  pop_all_lem n =
      let (e, p) = pop_n_refines v.ring n v.reader in
      (
        ap (λ (t : ℕ × List A × List A). t.0) e,
        ap (λ (t : ℕ × List A × List A). t.1) e,
        record {
          link = consumed p;
          same = ap (λ k. k - 1) p.fixed;
          now = ap (λ (t : ℕ × List A × List A). t.2) e;
        },
      )

module _ {ℓ} {A : Type ℓ} (l : Link A) (v : IsLink l) where
  -- On an empty ring, and on one with a single element.
  pub push_empty :
      (x : A)
      → held l ≡ []
      → let (b, l') = push_one x l in (b ≡ true) × IsLink l' × (held l' ≡ x ∷ [])
  push_empty x e = elim (push_one-cases l v x) [
    | inl (b, a) ↦ (b, a.link, a.now ∙ ap (λ q. q ++ x ∷ []) e)
    | inr (_, full, _) ↦ absurd (omega (arith, ap length e, full, room_of-positive l v))
  ]

  pub pop_empty :
      held l ≡ [] → let (b, out, l') = pop_one l in (b ≡ false) × IsLink l' × (held l' ≡ [])
  pop_empty e = elim (pop_one-cases l v) [
    | inl (x, _, _, q, full, _) ↦ absurd (omega (arith, ap length (sym e ∙ full)))
    | inr (b, dry, a) ↦ (b, a.link, a.now ∙ e)
  ]

  pub pop_single :
      (x : A)
      → held l ≡ x ∷ []
      → let (b, out, l') = pop_one l in (b ≡ true) × (out ≡ some x) × IsLink l' × (held l' ≡ [])
  pop_single x e = elim (pop_one-cases l v) [
    | inl (y, b, out, q, full, a) ↦
        let same : x ∷ [] ≡ y ∷ q = sym e ∙ full in
        (b, out ∙ ap some (sym (head_of same)), a.link, a.now ∙ sym (tail_of same))
    | inr (_, dry, _) ↦ absurd (omega (arith, ap length (sym e ∙ dry)))
  ]
    where
      head_of : {x y : A} {xs ys : List A} → x ∷ xs ≡ y ∷ ys → x ≡ y
      head_of h = cc

      tail_of : {x y : A} {xs ys : List A} → x ∷ xs ≡ y ∷ ys → xs ≡ ys
      tail_of h = cc
