-- ===== src/Programs.antt =====
-- src/demo_consumer.cpp and src/demo_producer.cpp: `main`, from the call that opens the queue to the
-- exit code. What the calls in the loops return is given, and `t` stands for the system when the
-- queue is open.
pub mod Exit
pub mod Stream
use shm_spsc.Base.{
  ℕ, ◌^◌, Bool, true, false, Option, none, some, List, [], ◌∷◌, leb, if◌then◌else◌, sub64,
}
use shm_spsc.Base.Results.{Result, ok, err}
use shm_spsc.Layout.{Role, Binary}
use shm_spsc.Ring.{Handle}
use shm_spsc.Claim.{Attempt}
use shm_spsc.Connect.{Host, create_queue, attach, leave}
use shm_spsc.Demo.{Message, Tally, Poll, receive, exit_code, Send, produce}
use shm_spsc.Report.{Scales, Line, print_latency}

-- `argv` with its default, where the argument, if there is one, has been parsed
abbrev pub argument {ℓ} : {A : Type ℓ} → (default : A) → Option A → A
argument default none = default
argument default (some x) = x

-- A turn of the consumer's wait: the stop flag, and what `waitForPeer(1000)` answers.
pub record Wait : Type 0 where
  pub stop : Bool
  pub came : Bool

-- `while (!g_stop && !q.waitForPeer(1000))`; it ends with whether the flag
-- has ended it; `none`: it goes on.
unfoldable pub await : List Wait → Option Bool
await [] = none
await (w ∷ waits) =
    let rest = await waits in if w.stop then some true else if w.came then some false else rest

-- The variables at their start; `reserve` gives at least the room that it is asked for.
abbrev pub first_tally : (reserved_room : ℕ) → Tally
first_tally reserved_room = record {
  received = 0;
  expect = 0;
  errors = 0;
  latency = [];
  reserved_room = reserved_room;
}

-- When the loop prints a line: a second at least behind the one before.
unfoldable pub reports : (last_report : ℕ) → List ℕ → List ℕ
reports last_report [] = []
reports last_report (now ∷ batches) =
    let skip = reports last_report batches in
    let print = now ∷ reports now batches in
    if leb 1000000000 (sub64 now last_report) then print else skip

abbrev pub guarded : Option Line → Option (Option Line)
guarded none = none
guarded (some l) = some (some l)

-- The last line, which is left out if no latency was taken; `none`: its behaviour is undefined.
abbrev pub last_line : Scales → List ℕ → Option (Option Line)
last_line scales [] = some none
last_line scales (x ∷ xs) = guarded (print_latency scales (x ∷ xs))

module _ {S : Type 0} (host : Host S) where
  abbrev pub after_receive : Handle → S → Option Tally → Option (ℕ × S)
  after_receive h t none = none
  after_receive h t (some tally) = some (exit_code tally, leave host h t)

  -- Behind the wait: `stopped` is the flag then.
  abbrev pub after_wait :
      Handle → (stopped : Bool) → (room : ℕ) → List Poll → S → Option Bool → Option (ℕ × S)
  after_wait h stopped room polls t none = none
  after_wait h stopped room polls t (some x) =
      if stopped
      then some (0, leave host h t)
      else after_receive h t (receive polls (first_tally room))

  abbrev pub consumer_run :
      List Wait
      → (stopped : Bool) → (room : ℕ) → List Poll
      → Option (Result Handle × S)
      → Option (ℕ × S)
  consumer_run waits stopped room polls none = none
  consumer_run waits stopped room polls (some (err e, t)) = some (1, t)
  consumer_run waits stopped room polls (some (ok h, t)) =
      after_wait h stopped room polls t (await waits)

  -- `main` of the consumer: its exit code, and the system at the end; `none`: it goes on.
  unfoldable pub consumer_main :
      Binary
      → List Attempt
      → List ℕ
      → (capacity : Option ℕ) → List Wait
      → (stopped : Bool) → (room : ℕ) → List Poll
      → S
      → Option (ℕ × S)
  consumer_main b attempts name capacity waits stopped room polls s =
      consumer_run waits stopped room polls
        (create_queue host b attempts name (argument 8192 capacity) Role.consumer s)

  abbrev pub after_send : Handle → S → Option (ℕ × List Message) → Option (ℕ × S)
  after_send h t none = none
  after_send h t (some q) = some (0, leave host h t)

  abbrev pub producer_run : (total : ℕ) → List Send → Option (Result Handle × S) → Option (ℕ × S)
  producer_run total turns none = none
  producer_run total turns (some (err e, t)) = some (1, t)
  producer_run total turns (some (ok h, t)) = after_send h t (produce total 0 [] turns)

  -- `main` of the producer
  unfoldable pub producer_main :
      Binary
      → (fuel : ℕ) → List Attempt
      → List ℕ
      → (total : Option ℕ) → List Send
      → S
      → Option (ℕ × S)
  producer_main b fuel attempts name total turns s =
      producer_run (argument 5000000 total) turns
        (attach host b fuel attempts name Role.producer 10000 s)
