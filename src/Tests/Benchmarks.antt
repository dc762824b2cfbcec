-- ===== src/Tests/Benchmarks.antt =====
-- The benchmarks on rings of three slots.
use shm_spsc.Base.{
  ℕ, ◌+◌, ◌*◌, ◌/◌, ◌≤◌, ◌≡◌, ◌↔◌, refl, none, some, List, [], ◌∷◌, length, arith, replicate, zero,
  suc,
}
use shm_spsc.Layout.{Role}
use shm_spsc.Ring.Index.{used}
use shm_spsc.Ring.Window.{window}
use shm_spsc.Demo.{Message}
use shm_spsc.Calls.{Link}
use shm_spsc.Calls.Refine.{IsLink}
use shm_spsc.Calls.Effects.{held}
use shm_spsc.Base.{true, false}
use shm_spsc.Programs.{reports}
use shm_spsc.Report.Clock.{clock_overhead_bounds}
use shm_spsc.Report.{clock_overhead, Scales, Line, sort, percentile, print_latency}
use shm_spsc.Report.Rank.{IsLine, print_latency-IsLine}
use shm_spsc.Throughput.{timed_run, Bench, Turn, run_turns}
use shm_spsc.Throughput.Turns.{IsBalanced}
use shm_spsc.Throughput.Delivered.{run_balance, run_ends}
use shm_spsc.Latency
use shm_spsc.Latency.{PingPong, ParentPc, started, iterations}
use shm_spsc.Latency.Phase.{IsPaired}
use shm_spsc.Latency.Laps.{Ticks, clock_after, run_turns-IsPaired, run_turns_ends, report_iff}
use shm_spsc.Tests.Interleaved.{handle}
use shm_spsc.Tests.Whole.{block}

abbrev pub ring : Link Message
ring = record {
  producer = handle Role.producer;
  consumer = handle Role.consumer;
  shared = record {
    ctrl = record block { capacity = 3; write_idx = 0; read_idx = 0 };
    slots = replicate 3 Latency.zeroed;
  };
}

ring-IsLink : IsLink ring
unfolding used
ring-IsLink = record {
  ring = omega arith;
  writer = record { same = refl; cache_in = omega arith; stale = omega arith };
  reader = record { same = refl; cache_in = omega arith; stale = omega arith };
}

ring_empty : held ring ≡ []
unfolding used window
ring_empty = refl

abbrev bench : Bench
bench = record { link = ring; sent = 0; got = 0 }

bench-IsBalanced : IsBalanced 5 bench
unfolding used window
bench-IsBalanced = record { link = ring-IsLink; balance = refl; most = omega arith }

abbrev schedule : List Turn
schedule =
    Turn.produces ∷ Turn.produces ∷ Turn.consumes ∷ Turn.produces ∷ Turn.consumes ∷ Turn.produces
    ∷ Turn.consumes ∷ Turn.produces ∷ Turn.consumes ∷ Turn.produces ∷ Turn.consumes ∷ []

run_balance_example :
    let b' = run_turns 5 2 schedule bench in
    (b'.sent ≡ b'.got + length (held b'.link)) × (b'.sent ≤ 5)
run_balance_example = run_balance 5 2 (omega arith) (omega arith) bench bench-IsBalanced schedule

run_ends_example :
    let b' = run_turns 5 2 schedule bench in (b'.sent ≡ 5) × (b'.got ≡ 5) × (held b'.link ≡ [])
run_ends_example =
    run_ends 5 2 (omega arith) (omega arith) bench bench-IsBalanced schedule (omega arith)

-- One iteration to warm up and one that counts, each turn a nanosecond behind the one before.
abbrev pub pairs : (n now : ℕ) → List Latency.Turn
pairs zero now = []
pairs (suc n) now = Latency.Turn.parents now ∷ Latency.Turn.echoes (now + 1) ∷ pairs n (now + 2)

abbrev pub turns : List Latency.Turn
turns = pairs 10 100

turns-Ticks : Ticks 0 turns
turns-Ticks = ground arith

run_turns-IsPaired_example :
    IsPaired 1 (clock_after 0 turns) (Latency.run_turns 1 turns (started ring ring))
run_turns-IsPaired_example =
    run_turns-IsPaired 1 (omega arith) ring ring ring-IsLink ring-IsLink ring_empty ring_empty turns
      turns-Ticks

run_turns_ends_example :
    let p = (Latency.run_turns 1 turns (started ring ring)).parent in
    (p.pc ≡ ParentPc.begin) × (p.i ≡ iterations 1) × (length p.rtt ≡ 1) × (length p.one_way ≡ 1)
run_turns_ends_example =
    run_turns_ends 1 (omega arith) ring ring ring-IsLink ring-IsLink ring_empty ring_empty turns
      turns-Ticks (omega arith)

abbrev one : ℕ
one = 1

abbrev pub scales : Scales
scales = record { p50 = λ n. n / 2; p99 = λ n. n * 99 / 100; p999 = λ n. n * 999 / 1000 }

report_iff_example :
    ((Latency.report scales (Latency.run_turns 1 turns (started ring ring))).0 ≡ none) ↔ (one ≡ 0)
report_iff_example =
    report_iff 1 (omega arith) ring ring ring-IsLink ring-IsLink ring_empty ring_empty scales turns
      turns-Ticks (omega arith)

abbrev samples : List ℕ
samples = 40 ∷ 10 ∷ 90 ∷ 20 ∷ 30 ∷ []

abbrev printed : Line
printed = record { p50 = 30; p99 = 40; p999 = 40; worst = 90 }

printed_line : print_latency scales samples ≡ some printed
unfolding print_latency sort percentile
printed_line = refl

print_latency-IsLine_example :
    (l : Line) × (print_latency scales samples ≡ some l) × IsLine scales samples l
print_latency-IsLine_example = print_latency-IsLine scales samples (omega arith)

-- Ten nanoseconds over two readings.
overhead_two : clock_overhead 2 (10 ∷ 12 ∷ 15 ∷ 20 ∷ []) ≡ some 5
unfolding clock_overhead
overhead_two = refl

clock_overhead_bounds_example :
    (q : ℕ) × (clock_overhead 2 (10 ∷ 12 ∷ 15 ∷ 20 ∷ []) ≡ some q) × (2 ≤ q) × (q ≤ 5 + 5 / 2)
clock_overhead_bounds_example =
    clock_overhead_bounds 2 5 2 10 (12 ∷ 15 ∷ 20 ∷ []) (omega arith)
      (
        omega arith,
        omega arith,
        omega arith,
        (omega arith, omega arith, omega arith, (omega arith, omega arith, omega arith, tt)),
      )
      (omega arith)

-- The second reading is too early for a line.
two_reports : reports 0 (1500000000 ∷ 2000000000 ∷ 2500000000 ∷ []) ≡ 1500000000 ∷ 2500000000 ∷ []
unfolding reports
two_reports = refl

-- A consumer that has not attached, and one that has taken 300 nanoseconds.
not_attached : timed_run false 100 400 ≡ none
unfolding timed_run
not_attached = refl

attached : timed_run true 100 400 ≡ some 300
unfolding timed_run
attached = refl
