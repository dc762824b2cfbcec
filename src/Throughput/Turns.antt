-- ===== src/Throughput/Turns.antt =====
-- What a turn of the loops in src/bench_throughput.cpp sends or receives.
use shm_spsc.Base.{
  ℕ, zero, suc, ◌+◌, ◌-◌, ◌<◌, ◌≤◌, ◌≡◌, refl, ap, ◌∙◌, inl, inr, Bool-cases, List, [], ◌∷◌, ◌++◌,
  length, take, drop, arith, u64_mod, ltb, ◌==◌, add64, sub64, min, length-append,
  length-take_of_le, length-drop, ltb→lt, ltb-not,
}
use native.Mathlib.Nat.{mod-eq_of_lt}
use shm_spsc.Demo.{Message, make_message}
use shm_spsc.Calls.{Link, push_all, pop_all}
use shm_spsc.Calls.Refine.{IsLink}
use shm_spsc.Calls.Effects.{
  held, After, room_of-positive, push_one-cases, push_all_lem, pop_one-cases, pop_all_lem,
}
use shm_spsc.Throughput.{Bench, messages, produce_turn, consume_turn}

-- What was sent is what was got and what is still in the ring, and no more than the total.
pub record IsBalanced (total : ℕ) (b : Bench) : Type 0 where
  pub link : IsLink b.link
  pub balance : b.sent ≡ b.got + length (held b.link)
  pub most : b.sent ≤ total

length-messages : (i n : ℕ) → length (messages i n) ≡ n
length-messages i zero = refl
length-messages i (suc n) = ap suc (length-messages (suc i) n)

rest_lem : (n a : ℕ) → n < u64_mod → a ≤ n → sub64 n a ≡ n - a
rest_lem n a h k = omega arith

module _ {total : ℕ} {b : Bench} (fits : total < u64_mod) (v : IsBalanced total b) where
  -- The producer has appended `xs`.
  sent_more :
      {l : Link Message} (xs : List Message) (n : ℕ)
      → After b.link l (held b.link ++ xs)
      → length xs ≡ n
      → b.sent + n ≤ total
      → IsBalanced total (record b { link = l; sent = add64 b.sent n })
        × (add64 b.sent n ≡ b.sent + n)
  sent_more xs n a len le =
      let e : add64 b.sent n ≡ b.sent + n = mod-eq_of_lt (omega arith) in
      let q = ap length a.now ∙ length-append (held b.link) xs in
      (
        record {
          link = a.link;
          balance = omega (arith, e, q, len, v.balance);
          most = omega (arith, e);
        },
        e,
      )

  -- The consumer has left `q`.
  got_more :
      {l : Link Message} (q : List Message) (n : ℕ)
      → After b.link l q
      → length (held b.link) ≡ length q + n
      → IsBalanced total (record b { link = l; got = add64 b.got n }) × (add64 b.got n ≡ b.got + n)
  got_more q n a len =
      let e : add64 b.got n ≡ b.got + n = mod-eq_of_lt (omega (arith, v.balance, v.most, len)) in
      (
        record {
          link = a.link;
          balance = omega (arith, e, ap length a.now, len, v.balance);
          most = v.most;
        },
        e,
      )

  unmoved :
      {l : Link Message} → After b.link l (held b.link) → IsBalanced total (record b { link = l })
  unmoved a = record {
    link = a.link;
    balance = omega (arith, ap length a.now, v.balance);
    most = v.most;
  }

module _ (total batch : ℕ) (fits : total < u64_mod) (some_batch : 0 < batch) where
  -- A turn of the producer sends something unless it is through or the ring is full.
  pub produce_lem :
      (b : Bench)
      → IsBalanced total b
      → let b' = produce_turn total batch b in
        IsBalanced total b' × (b'.got ≡ b.got) × (b.got < total → b'.got < b'.sent)
  unfolding produce_turn
  produce_lem b v =
      let positive = room_of-positive b.link v.link in
      elim (Bool-cases (ltb b.sent total)) [
        | inr through ↦ rw through (v, refl, λ h. omega (arith, ltb-not b.sent total through))
        | inl more ↦
            let more_lt = ltb→lt b.sent total more in
            elim (Bool-cases (batch == 1)) [
              | inl single ↦
                  rw (more, single)
                    (elim (push_one-cases b.link v.link (make_message 0 0)) [
                      | inl (e, a) ↦ rw e (
                          let (v', n) =
                            sent_more fits v (make_message 0 0 ∷ []) 1 a refl
                              (omega (arith, more_lt)) in
                          (v', refl, λ h. omega (arith, n, v.balance)))
                      | inr (e, full, a) ↦
                          rw e
                            (unmoved fits v a, refl, λ h. omega (arith, full, positive, v.balance))
                    ])
              | inr many ↦
                  rw (more, many)
                    (let want = min batch (sub64 total b.sent) in
                      let (e, a) =
                        push_all_lem b.link v.link (messages 0 batch) want
                          (omega (arith, length-messages 0 batch)) in
                      let k = (push_all (messages 0 batch) want b.link).0 in
                      let rest = rest_lem total b.sent fits v.most in
                      let (v', n) =
                        sent_more fits v (take k (messages 0 batch)) k a
                          (length-take_of_le k (messages 0 batch)
                            (omega (arith, e, length-messages 0 batch)))
                          (omega (arith, e, rest, v.most)) in
                      (
                        v',
                        refl,
                        λ h. omega (arith, n, e, rest, positive, some_batch, v.balance, more_lt),
                      ))
            ]
      ]

  pub consume_lem :
      (b : Bench)
      → IsBalanced total b
      → let b' = consume_turn total batch b in
        IsBalanced total b'
        × (b'.sent ≡ b.sent)
        × (b.got ≤ b'.got)
        × (b.got < b.sent → b.got < b'.got)
  unfolding consume_turn
  consume_lem b v = elim (Bool-cases (ltb b.got total)) [
    | inr through ↦
        rw through
          (v, refl, omega arith, λ h. absurd (omega (arith, v.most, ltb-not b.got total through)))
    | inl more ↦ elim (Bool-cases (batch == 1)) [
      | inl single ↦
          rw (more, single)
            (elim (pop_one-cases b.link v.link) [
              | inl (x, e, _, q, eq, a) ↦ rw e (
                  let (v', n) = got_more fits v q 1 a (omega (arith, ap length eq)) in
                  (v', refl, omega (arith, n), λ h. omega (arith, n)))
              | inr (e, dry, a) ↦ rw e (
                unmoved fits v a,
                refl,
                omega arith,
                λ h. absurd (omega (arith, ap length dry, v.balance)),
              )
            ])
      | inr many ↦
          rw (more, many)
            (let (e, _, a) = pop_all_lem b.link v.link batch in
              let k = (pop_all batch b.link).0 in
              let (v', n) =
                got_more fits v (drop batch (held b.link)) k a
                  (omega (arith, e, length-drop batch (held b.link))) in
              (v', refl, omega (arith, n), λ h. omega (arith, n, e, v.balance)))
    ]
  ]
