-- ===== src/Latency/Phase.antt =====
-- Where the two processes of src/bench_latency.cpp stand to each other.
use shm_spsc.Base.{ℕ, suc, ◌+◌, ◌-◌, ◌*◌, ◌<◌, ◌≤◌, ◌≡◌, List, [], ◌∷◌, length}
use shm_spsc.Demo.{Message, make_message}
use shm_spsc.Calls.Refine.{IsLink}
use shm_spsc.Calls.Effects.{held}
use shm_spsc.Latency.{ParentPc, EchoPc, PingPong, warmup, iterations, stamped}

-- The message of iteration `i`, asked at `t0` and stamped at `n`.
abbrev pub answer : (i t0 n : ℕ) → Message
answer i t0 n = stamped (make_message i t0) n

-- At clock `c`, of `last` iterations: one message goes round, and every reply is to its own ping.
pub data Phase (last c : ℕ) (s : PingPong) : Type 0 where
  idle :
      s.parent.pc ≡ ParentPc.begin
      → s.echo.pc ≡ EchoPc.reading
      → s.echo.i ≡ s.parent.i
      → s.parent.i ≤ last
      → held s.ping ≡ []
      → held s.pong ≡ []
      → Phase last c s
  asking :
      (t0 : ℕ)
      → t0 ≤ c
      → s.parent.pc ≡ ParentPc.pushing (make_message s.parent.i t0) t0
      → s.echo.pc ≡ EchoPc.reading
      → s.echo.i ≡ s.parent.i
      → s.parent.i < last
      → held s.ping ≡ []
      → held s.pong ≡ []
      → Phase last c s
  asked :
      (t0 : ℕ)
      → t0 ≤ c
      → s.parent.pc ≡ ParentPc.popping t0
      → s.echo.pc ≡ EchoPc.reading
      → s.echo.i ≡ s.parent.i
      → s.parent.i < last
      → held s.ping ≡ make_message s.parent.i t0 ∷ []
      → held s.pong ≡ []
      → Phase last c s
  echoing :
      (t0 n : ℕ)
      → t0 ≤ n
      → n ≤ c
      → s.parent.pc ≡ ParentPc.popping t0
      → s.echo.pc ≡ EchoPc.writing
      → s.echo.i ≡ s.parent.i
      → s.parent.i < last
      → s.echo.m ≡ answer s.parent.i t0 n
      → held s.ping ≡ []
      → held s.pong ≡ []
      → Phase last c s
  answered :
      (t0 n : ℕ)
      → t0 ≤ n
      → n ≤ c
      → s.parent.pc ≡ ParentPc.popping t0
      → s.echo.pc ≡ EchoPc.reading
      → s.echo.i ≡ suc s.parent.i
      → s.parent.i < last
      → held s.ping ≡ []
      → held s.pong ≡ answer s.parent.i t0 n ∷ []
      → Phase last c s

-- Each one-way time is at most its round trip.
abbrev pub Within : List ℕ → List ℕ → Type 0
Within [] [] = Unit
Within [] (y ∷ ys) = ⊥
Within (x ∷ xs) [] = ⊥
Within (x ∷ xs) (y ∷ ys) = (x ≤ y) × Within xs ys

pub record IsPaired (iters c : ℕ) (s : PingPong) : Type 0 where
  pub ping_link : IsLink s.ping
  pub pong_link : IsLink s.pong
  pub phase : Phase (iterations iters) c s
  pub counted : length s.parent.rtt ≡ s.parent.i - warmup iters
  pub within : Within s.parent.one_way s.parent.rtt

-- How far each process has come: three turns an iteration of the parent, two of the echo.
abbrev pub parent_turns : ParentPc → ℕ → ℕ
parent_turns ParentPc.begin i = 3 * i
parent_turns (ParentPc.pushing m t0) i = 3 * i + 1
parent_turns (ParentPc.popping t0) i = 3 * i + 2

abbrev pub echo_turns : EchoPc → ℕ → ℕ
echo_turns EchoPc.reading i = 2 * i
echo_turns EchoPc.writing i = 2 * i + 1

abbrev pub progress : PingPong → ℕ
progress s = parent_turns s.parent.pc s.parent.i + echo_turns s.echo.pc s.echo.i

-- The parent waits for the echo to move.
abbrev pub EchoNext : PingPong → Type 0
EchoNext s =
    (t0 : ℕ) × (s.parent.pc ≡ ParentPc.popping t0)
    × (echo_turns s.echo.pc s.echo.i < 2 * s.parent.i + 2)
