-- ===== src/Latency.antt =====
-- src/bench_latency.cpp: a parent and its echo process on two queues. A turn is one call of a queue
-- or the start of an iteration, at a reading of the clock that the two share.
pub mod Phase
pub mod Samples
pub mod Turns
pub mod Echoes
pub mod Laps
pub mod Main
use shm_spsc.Base.{
  ℕ, ◌/◌, Bool, Option, none, some, List, [], ◌∷◌, ◌++◌, ltb, leb, if◌then◌else◌, ◌&&◌, add64,
  sub64, replicate,
}
use shm_spsc.Demo.{Message, make_message}
use shm_spsc.Calls.{Link, push_one, pop_one}
use shm_spsc.Report.{Scales, Line, print_latency}

pub data ParentPc : Type 0 where
  begin : ParentPc
  pushing : Message → (t0 : ℕ) → ParentPc
  popping : (t0 : ℕ) → ParentPc

pub data EchoPc : Type 0 where
  reading : EchoPc
  writing : EchoPc

-- The variables of `main`'s loop, `i` the iteration.
pub record Parent : Type 0 where
  pub i : ℕ
  pub pc : ParentPc
  pub reply : Message
  pub rtt : List ℕ
  pub one_way : List ℕ

pub record Echo : Type 0 where
  pub i : ℕ
  pub pc : EchoPc
  pub m : Message

pub record PingPong : Type 0 where
  pub ping : Link Message
  pub pong : Link Message
  pub parent : Parent
  pub echo : Echo

abbrev pub warmup : ℕ → ℕ
warmup iters = add64 (iters / 10) 1

-- How often both loops go round.
abbrev pub iterations : ℕ → ℕ
iterations iters = add64 iters (warmup iters)

-- What `try_pop` leaves in the variable that it is given.
abbrev pub assigned : Option Message → Message → Message
assigned none m = m
assigned (some x) m = x

abbrev pub stamped : Message → ℕ → Message
stamped m now = record m { sent_ns = now }

-- `reply.sentNs > t0 ? reply.sentNs - t0 : 0`
abbrev pub one_way_of : (sent_ns t0 : ℕ) → ℕ
one_way_of sent_ns t0 = if ltb t0 sent_ns then sub64 sent_ns t0 else 0

-- The end of an iteration of the parent.
unfoldable pub collect : (iters t0 t1 : ℕ) → Message → Parent → Parent
collect iters t0 t1 reply p =
    let kept = leb (warmup iters) p.i in
    record {
      i = add64 p.i 1;
      pc = ParentPc.begin;
      reply = reply;
      rtt = if kept then p.rtt ++ sub64 t1 t0 ∷ [] else p.rtt;
      one_way = if kept then p.one_way ++ one_way_of reply.sent_ns t0 ∷ [] else p.one_way;
    }

unfoldable pub parent_at : (iters now : ℕ) → ParentPc → PingPong → PingPong
parent_at iters now ParentPc.begin s =
    if ltb s.parent.i (iterations iters)
    then record s {
      parent = record s.parent { pc = ParentPc.pushing (make_message s.parent.i now) now };
    }
    else s
parent_at iters now (ParentPc.pushing m t0) s =
    let (pushed, l) = push_one m s.ping in
    if pushed
    then record s { ping = l; parent = record s.parent { pc = ParentPc.popping t0 } }
    else record s { ping = l }
parent_at iters now (ParentPc.popping t0) s =
    let (popped, out, l) = pop_one s.pong in
    if popped
    then record s { pong = l; parent = collect iters t0 now (assigned out s.parent.reply) s.parent }
    else record s { pong = l }

unfoldable pub echo_at : (iters now : ℕ) → EchoPc → PingPong → PingPong
echo_at iters now EchoPc.reading s =
    let (popped, out, l) = pop_one s.ping in
    if ltb s.echo.i (iterations iters)
    then if popped
      then record s {
        ping = l;
        echo = record s.echo { pc = EchoPc.writing; m = stamped (assigned out s.echo.m) now };
      }
      else record s { ping = l }
    else s
echo_at iters now EchoPc.writing s =
    let (pushed, l) = push_one s.echo.m s.pong in
    if pushed
    then record s { pong = l; echo = record s.echo { i = add64 s.echo.i 1; pc = EchoPc.reading } }
    else record s { pong = l }

pub data Turn : Type 0 where
  parents : (now : ℕ) → Turn
  echoes : (now : ℕ) → Turn

unfoldable pub turn : (iters : ℕ) → Turn → PingPong → PingPong
turn iters (Turn.parents now) s = parent_at iters now s.parent.pc s
turn iters (Turn.echoes now) s = echo_at iters now s.echo.pc s

unfoldable pub run_turns : (iters : ℕ) → List Turn → PingPong → PingPong
run_turns iters [] s = s
run_turns iters (t ∷ ts) s = run_turns iters ts (turn iters t s)

-- `Message m{}`
abbrev pub zeroed : Message
zeroed = record { seq = 0; sent_ns = 0; payload = replicate 6 0; checksum = 0; reserved = 0 }

-- Both loops at their start.
abbrev pub started : (ping pong : Link Message) → PingPong
started ping pong = record {
  ping = ping;
  pong = pong;
  parent = record { i = 0; pc = ParentPc.begin; reply = zeroed; rtt = []; one_way = [] };
  echo = record { i = 0; pc = EchoPc.reading; m = zeroed };
}

-- The two lines that `main` prints at its end.
unfoldable pub report : Scales → PingPong → Option Line × Option Line
report scales s = (print_latency scales s.parent.rtt, print_latency scales s.parent.one_way)

-- `main` behind the fork: its exit code, and what it prints, where both queues have found their peer.
unfoldable pub latency_main :
    (ping_came pong_came : Bool) → Scales → PingPong → ℕ × Option (Option Line × Option Line)
latency_main ping_came pong_came scales s =
    if ping_came && pong_came then (0, some (report scales s)) else (1, none)
