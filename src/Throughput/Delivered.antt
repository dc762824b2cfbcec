-- ===== src/Throughput/Delivered.antt =====
-- How many messages the loops of src/bench_throughput.cpp send and receive.
use shm_spsc.Base.{
  ℕ, suc, ◌+◌, ◌<◌, ◌≤◌, ◌≡◌, refl, Bool, true, false, List, [], ◌∷◌, length, arith, u64_mod,
}
use native.Mathlib.Decide.{dec_le}
use shm_spsc.Demo.{Message}
use shm_spsc.Calls.Effects.{held}
use shm_spsc.Throughput.{Bench, Turn, run_turns}
use shm_spsc.Throughput.Turns.{IsBalanced, produce_lem, consume_lem}

length-nil : (xs : List Message) → length xs ≡ 0 → xs ≡ []
length-nil [] e = refl
length-nil (x ∷ xs) e = absurd (omega arith)

-- How often a turn of the consumer follows, at any distance, on one of the producer.
abbrev pub rounds : (sent : Bool) → List Turn → ℕ
rounds sent [] = 0
rounds sent (Turn.produces ∷ ts) = rounds true ts
rounds true (Turn.consumes ∷ ts) = suc (rounds false ts)
rounds false (Turn.consumes ∷ ts) = rounds false ts

module _ (total batch : ℕ) (fits : total < u64_mod) (some_batch : 0 < batch) where
  run_turns-IsBalanced :
      (ts : List Turn) (b : Bench)
      → IsBalanced total b
      → IsBalanced total (run_turns total batch ts b)
  unfolding run_turns
  run_turns-IsBalanced [] b v = v
  run_turns-IsBalanced (Turn.produces ∷ ts) b v =
      run_turns-IsBalanced ts _ (produce_lem total batch fits some_batch b v).0
  run_turns-IsBalanced (Turn.consumes ∷ ts) b v =
      run_turns-IsBalanced ts _ (consume_lem total batch fits some_batch b v).0

  -- Each round brings the consumer a message, until it has them all.
  run_turns-got :
      (waits : Bool) (ts : List Turn) (b : Bench)
      → IsBalanced total b
      → (waits ≡ true → b.got < total → b.got < b.sent)
      → total ≤ b.got + rounds waits ts
      → total ≤ (run_turns total batch ts b).got
  unfolding run_turns
  run_turns-got true [] b v w h = omega arith
  run_turns-got false [] b v w h = omega arith
  run_turns-got waits (Turn.produces ∷ ts) b v w h =
      let (v', same, ahead) = produce_lem total batch fits some_batch b v in
      run_turns-got true ts _ v' (λ e h'. ahead (omega (arith, same, h'))) (omega (arith, same, h))
  run_turns-got true (Turn.consumes ∷ ts) b v w h =
      let (v', same, up, more) = consume_lem total batch fits some_batch b v in
      run_turns-got false ts _ v' (λ e. absurd (cc))
        (elim (dec_le total b.got) [
          | yes through ↦ omega (arith, up, through)
          | no ne ↦ omega (arith, more (w refl (omega (arith, ne))), h)
        ])
  run_turns-got false (Turn.consumes ∷ ts) b v w h =
      let (v', same, up, more) = consume_lem total batch fits some_batch b v in
      run_turns-got false ts _ v' (λ e. absurd (cc)) (omega (arith, up, h))

  -- With a total below 2^64, a batch of at least 1 and a sound ring whose messages, with those got,
  -- are those sent, no more than the total: however the calls of the two loops follow one another,
  -- what has been sent is what has been got and what is still in the ring, and no more than the
  -- total.
  pub run_balance :
      (b : Bench)
      → IsBalanced total b
      → (ts : List Turn)
      → let b' = run_turns total batch ts b in
        (b'.sent ≡ b'.got + length (held b'.link)) × (b'.sent ≤ total)
  run_balance b v ts = let v' = run_turns-IsBalanced ts b v in (v'.balance, v'.most)

  -- Under the same conditions: once turns of the consumer have followed on turns of the producer as
  -- often as there are messages still to get, both loops are through: every message has been sent
  -- and got, and the ring is empty.
  pub run_ends :
      (b : Bench)
      → IsBalanced total b
      → (ts : List Turn) → total ≤ b.got + rounds false ts
      → let b' = run_turns total batch ts b in
        (b'.sent ≡ total) × (b'.got ≡ total) × (held b'.link ≡ [])
  run_ends b v ts h =
      let v' = run_turns-IsBalanced ts b v in
      let got = run_turns-got false ts b v (λ e. absurd (cc)) h in
      (
        omega (arith, v'.balance, v'.most, got),
        omega (arith, v'.balance, v'.most, got),
        length-nil _ (omega (arith, v'.balance, v'.most, got)),
      )
