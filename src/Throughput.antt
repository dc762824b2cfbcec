-- ===== src/Throughput.antt =====
-- src/bench_throughput.cpp: the producer's and the consumer's loops of `run`, one call of the queue
-- a turn, in any interleaving.
pub mod Turns
pub mod Delivered
pub mod Main
use shm_spsc.Base.{
  ℕ, zero, suc, ◌+◌, min, Bool, true, false, Option, none, some, List, [], ◌∷◌, ltb, ◌==◌,
  if◌then◌else◌, add64, sub64,
}
use shm_spsc.Demo.{Message, make_message}
use shm_spsc.Calls.{Link, push_one, push_all, pop_one, pop_all}

-- `sent` of the producer (the counter `i` where the batch is 1), `got` of the consumer.
pub record Bench : Type 0 where
  pub link : Link Message
  pub sent : ℕ
  pub got : ℕ

-- `buf[i] = demo::makeMessage(i, 0)`, for `n` indices from `i` on
abbrev pub messages : (i n : ℕ) → List Message
messages i zero = []
messages i (suc n) = make_message i 0 ∷ messages (suc i) n

abbrev pub count_one : Bool → ℕ → ℕ
count_one b n = if b then add64 n 1 else n

-- A call of the producer, as long as its loop goes on.
unfoldable pub produce_turn : (total batch : ℕ) → Bench → Bench
produce_turn total batch b =
    let (pushed, l) = push_one (make_message 0 0) b.link in
    let want = min batch (sub64 total b.sent) in
    let (n, l') = push_all (messages 0 batch) want b.link in
    if ltb b.sent total
    then if batch == 1
      then record b { link = l; sent = count_one pushed b.sent }
      else record b { link = l'; sent = add64 b.sent n }
    else b

-- A call of the consumer, as long as its loop goes on; what it copies out is not looked at.
unfoldable pub consume_turn : (total batch : ℕ) → Bench → Bench
consume_turn total batch b =
    let (popped, out, l) = pop_one b.link in
    let (n, outs, l') = pop_all batch b.link in
    if ltb b.got total
    then if batch == 1
      then record b { link = l; got = count_one popped b.got }
      else record b { link = l'; got = add64 b.got n }
    else b

pub data Turn : Type 0 where
  produces : Turn
  consumes : Turn

unfoldable pub run_turns : (total batch : ℕ) → List Turn → Bench → Bench
run_turns total batch [] b = b
run_turns total batch (Turn.produces ∷ ts) b = run_turns total batch ts (produce_turn total batch b)
run_turns total batch (Turn.consumes ∷ ts) b = run_turns total batch ts (consume_turn total batch b)

-- The batch and the capacity of each run that `main` makes.
abbrev pub configurations : List (ℕ × ℕ)
configurations =
    (1, 8192) ∷ (8, 8192) ∷ (32, 8192) ∷ (128, 8192) ∷ (32, 64) ∷ (32, 1024) ∷ (32, 65536) ∷ []

-- The nanoseconds from the first push to the end of the consumer.
abbrev pub elapsed : (start finish : ℕ) → ℕ
elapsed start finish = sub64 finish start

-- `run` behind the fork: `none` where the consumer has failed to attach and is killed.
unfoldable pub timed_run : (attached : Bool) → (start finish : ℕ) → Option ℕ
timed_run attached start finish = if attached then some (elapsed start finish) else none
