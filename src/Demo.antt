-- ===== src/Demo.antt =====
-- src/common.h, and the loops of src/demo_producer.cpp and src/demo_consumer.cpp. What the calls of
-- the queue and of the clock return is given turn by turn.
pub mod Checks
pub mod Stream
use Prim.Native.Nat.{bit_xor}
use shm_spsc.Base.{
  ℕ, suc, ◌+◌, ◌-◌, ◌*◌, ◌/◌, ◌%◌, ◌^◌, min, Bool, true, false, not, ◌&&◌, ◌||◌, Option, none, some,
  List, [], ◌∷◌, ◌++◌, ltb, ◌==◌, if◌then◌else◌, u32, add64, sub64, mul64, length, get_or,
}

pub record Message : Type 0 where
  pub seq : ℕ
  pub sent_ns : ℕ
  pub payload : List ℕ
  pub checksum : ℕ
  pub reserved : ℕ

-- `mix`, on a word of 32 bits
abbrev pub mix : ℕ → ℕ → ℕ
mix h v = u32 (bit_xor h v * 16777619)

abbrev pub mix_all : ℕ → List ℕ → ℕ
mix_all h [] = h
mix_all h (v ∷ payload) = mix_all (mix h v) payload

unfoldable pub checksum_of : Message → ℕ
checksum_of m = mix_all (mix (mix 2166136261 (u32 m.seq)) (u32 (m.seq / 2 ^ 32))) m.payload

abbrev pub word : ℕ → ℕ → ℕ
word seq i = u32 (add64 (mul64 seq 31) i)

abbrev pub blank : (seq sent_ns : ℕ) → Message
blank seq sent_ns = record {
  seq = seq;
  sent_ns = sent_ns;
  payload = word seq 0 ∷ word seq 1 ∷ word seq 2 ∷ word seq 3 ∷ word seq 4 ∷ word seq 5 ∷ [];
  checksum = 0;
  reserved = 0;
}

unfoldable pub make_message : (seq sent_ns : ℕ) → Message
make_message seq sent_ns = record (blank seq sent_ns) { checksum = checksum_of (blank seq sent_ns) }

-- The variables of the consumer's loop, with the latencies and the room reserved for them.
pub record Tally : Type 0 where
  pub received : ℕ
  pub expect : ℕ
  pub errors : ℕ
  pub latency : List ℕ
  pub reserved_room : ℕ

-- `buf[i].seq != expect++ || buf[i].checksum != demo::checksumOf(buf[i])`
abbrev pub is_bad : Message → ℕ → Bool
is_bad m expect = not (m.seq == expect) || not (m.checksum == checksum_of m)

abbrev pub sample : (now : ℕ) → Message → Tally → List ℕ
sample now m t =
    if ltb (length t.latency) t.reserved_room && not (m.sent_ns == 0)
    then t.latency ++ sub64 now m.sent_ns ∷ []
    else t.latency

unfoldable pub check_one : (now : ℕ) → Message → Tally → Tally
check_one now m t =
    let latency = sample now m t in
    if is_bad m t.expect
    then record t { errors = add64 t.errors 1; expect = add64 m.seq 1; latency = latency }
    else record t { expect = add64 t.expect 1; latency = latency }

unfoldable pub check_all : (now : ℕ) → List Message → Tally → Tally
check_all now [] t = t
check_all now (m ∷ ms) t = check_all now ms (check_one now m t)

-- A turn of the consumer's loop: the stop flag, what `pop_n` has copied, and what `peerAlive` and
-- `empty` would answer.
pub record Poll : Type 0 where
  pub stop : Bool
  pub batch : List Message
  pub now : ℕ
  pub peer_alive : Bool
  pub empty : Bool

abbrev pub count_in : ℕ → Tally → Tally
count_in n t = record t { received = add64 t.received n }

-- `while (!g_stop)`; `none`: it goes on.
unfoldable pub receive : List Poll → Tally → Option Tally
receive [] t = none
receive (p ∷ polls) t =
    let idle = receive polls t in
    let got = receive polls (count_in (length p.batch) (check_all p.now p.batch t)) in
    if p.stop
    then some t
    else if length p.batch == 0
    then if not p.peer_alive && p.empty then some t else idle
    else got

unfoldable pub exit_code : Tally → ℕ
exit_code t = if t.errors == 0 then 0 else 1

-- A turn of the producer's loop: the stop flag, the clock, and what `push` answers.
pub record Send : Type 0 where
  pub stop : Bool
  pub now : ℕ
  pub pushed : Bool

-- The producer's loop from `sent` on: `sent` at its end and what it has pushed; `none`: it goes on.
unfoldable pub produce : (total sent : ℕ) → List Message → List Send → Option (ℕ × List Message)
produce total sent out [] = none
produce total sent out (t ∷ turns) =
    let m = make_message sent t.now in
    let rest = produce total (add64 sent 1) (out ++ m ∷ []) turns in
    if ltb sent total && not t.stop
    then if t.pushed then rest else some (sent, out)
    else some (sent, out)
