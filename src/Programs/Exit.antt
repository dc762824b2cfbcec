-- ===== src/Programs/Exit.antt =====
-- How `main` of src/demo_consumer.cpp and of src/demo_producer.cpp ends, and what it leaves.
use shm_spsc.Base.{
  ℕ, ◌<◌, ◌≡◌, ◌∙◌, refl, sym, ap, Bool, true, false, Option, none, some, List, [], ◌∷◌, inl, inr,
  Bool-cases, ◌≢◌, length, u64_mod, ==_iff, ◌==◌, arith,
}
use shm_spsc.Base.Results.{Result, ok, err}
use shm_spsc.Layout.{Role, Binary}
use shm_spsc.Ring.{Handle}
use shm_spsc.Segment.Laws.{Resources}
use shm_spsc.Claim.{Attempt}
use shm_spsc.Connect.{Host, create_queue, leave}
use shm_spsc.Connect.Held.{HostLaws}
use shm_spsc.Connect.Cleanup.{Kept, Joined, same_object, attach_lem}
use shm_spsc.Connect.Made.{Undone, Made, create_queue_lem, leave-owned, leave-held}
use shm_spsc.Demo.{Message, Tally, Poll, receive, exit_code, Send, produce}
use shm_spsc.Demo.Checks.{InOrder}
use shm_spsc.Demo.Stream.{handled, receive_iff}
use shm_spsc.Report.{Scales, Line}
use shm_spsc.Report.Rank.{print_latency_iff}
use shm_spsc.Programs.{
  argument, Wait, await, first_tally, after_receive, after_wait, consumer_run, consumer_main,
  after_send, producer_run, producer_main, last_line, guarded,
}

some-inj {ℓ} : {B : Type ℓ} {a b : B} → some a ≡ some b → a ≡ b
some-inj e = cc

module _ {S : Type 0} (host : Host S) (r : Resources S) (name : List ℕ)
    (laws : HostLaws host r name) where
  after_receive_lem :
      (h : Handle) (s t : S) (o : Option Tally) (code : ℕ) (u : S)
      → Undone host r name laws s (leave host h t)
      → after_receive host h t o ≡ some (code, u)
      → Undone host r name laws s u
  after_receive_lem h s t none code u left e = absurd (cc)
  after_receive_lem h s t (some tally) code u left e = rw (sym (ap (λ q. q.1) (some-inj e))) left

  after_wait_lem :
      (h : Handle) (stopped : Bool) (room : ℕ) (polls : List Poll) (s t : S) (o : Option Bool)
      (code : ℕ) (u : S)
      → Undone host r name laws s (leave host h t)
      → after_wait host h stopped room polls t o ≡ some (code, u)
      → Undone host r name laws s u
  after_wait_lem h stopped room polls s t none code u left e = absurd (cc)
  after_wait_lem h true room polls s t (some x) code u left e =
      rw (sym (ap (λ q. q.1) (some-inj e))) left
  after_wait_lem h false room polls s t (some x) code u left e =
      after_receive_lem h s t (receive polls (first_tally room)) code u left e

  consumer_run_lem :
      (waits : List Wait) (stopped : Bool) (room : ℕ) (polls : List Poll) (s : S)
      (o : Option (Result Handle × S)) (code : ℕ) (u : S)
      → ((res : Result Handle × S) → o ≡ some res → Made host r name laws s res)
      → consumer_run host waits stopped room polls o ≡ some (code, u)
      → Undone host r name laws s u
  consumer_run_lem waits stopped room polls s none code u made e = absurd (cc)
  consumer_run_lem waits stopped room polls s (some (err x, t)) code u made e =
      rw (sym (ap (λ q. q.1) (some-inj e))) (made (err x, t) refl)
  consumer_run_lem waits stopped room polls s (some (ok h, t)) code u made e =
      after_wait_lem h stopped room polls s t (await waits) code u
        (leave-owned host r name laws h s t (made (ok h, t) refl)) e

  -- However `main` of the consumer ends, its descriptors and mappings are what they were, and it
  -- leaves no object of the name, unless it has changed nothing at all.
  pub consumer_main-Undone :
      (b : Binary) (attempts : List Attempt) (capacity : Option ℕ) (waits : List Wait)
      (stopped : Bool) (room : ℕ) (polls : List Poll) (s : S) (code : ℕ) (u : S)
      → consumer_main host b attempts name capacity waits stopped room polls s ≡ some (code, u)
      → Undone host r name laws s u
  unfolding consumer_main
  consumer_main-Undone b attempts capacity waits stopped room polls s code u e =
      consumer_run_lem waits stopped room polls s _ code u
        (create_queue_lem host r name laws b attempts (argument 8192 capacity) Role.consumer s) e

module _ {S : Type 0} (host : Host S) (r : Resources S) (name : List ℕ)
    (laws : HostLaws host r name) (Becomes : Bool → Bool → Type 0)
    (stays : (a : Bool) → Becomes a a)
    (chain : (a c d : Bool) → Becomes a c → Becomes c d → Becomes a d)
    (others : (s : S) → Becomes (r.present name s) (r.present name (host.pause s))) where
  abbrev Same : S → S → Type 0
  Same s t = Kept host r name laws Becomes stays chain others s t

  after_send_lem :
      (h : Handle) (s t : S) (o : Option (ℕ × List Message)) (code : ℕ) (u : S)
      → Same s (leave host h t)
      → after_send host h t o ≡ some (code, u)
      → Same s u
  after_send_lem h s t none code u left e = absurd (cc)
  after_send_lem h s t (some q) code u left e = rw (sym (ap (λ q. q.1) (some-inj e))) left

  producer_run_lem :
      (total : ℕ) (turns : List Send) (s : S) (o : Option (Result Handle × S)) (code : ℕ) (u : S)
      → ((res : Result Handle × S)
          → o ≡ some res
          → Joined host r name laws Becomes stays chain others s res)
      → producer_run host total turns o ≡ some (code, u)
      → Same s u
  producer_run_lem total turns s none code u joined e = absurd (cc)
  producer_run_lem total turns s (some (err x, t)) code u joined e =
      rw (sym (ap (λ q. q.1) (some-inj e))) (joined (err x, t) refl)
  producer_run_lem total turns s (some (ok h, t)) code u joined e =
      let ((f, m, p), other) = joined (ok h, t) refl in
      let (f', m', q) = leave-held host r name laws h s t other m in
      after_send_lem h s t (produce total 0 [] turns) code u
        (f' ∙ f, m', same_object host r name laws Becomes stays chain others p q) e

  -- However `main` of the producer ends, descriptors and mappings are as they were, and the object is
  -- what others have made of it.
  pub producer_main-Same :
      (b : Binary) (fuel : ℕ) (attempts : List Attempt) (total : Option ℕ) (turns : List Send)
      (s : S) (code : ℕ) (u : S)
      → producer_main host b fuel attempts name total turns s ≡ some (code, u)
      → Same s u
  unfolding producer_main
  producer_main-Same b fuel attempts total turns s code u e =
      producer_run_lem (argument 5000000 total) turns s _ code u
        (attach_lem host r name laws Becomes stays chain others b fuel attempts Role.producer 10000
          s)
        e

one_zero : {n : ℕ} → n ≡ 1 → n ≡ 0 → ⊥
one_zero p q = omega arith

exit_code_lem : (k : Tally) → exit_code k ≡ 0 → k.errors ≡ 0
unfolding exit_code
exit_code_lem k h = elim (Bool-cases (k.errors == 0)) [
  | inl zero_errors ↦ (==_iff k.errors 0).0 zero_errors
  | inr some_errors ↦ absurd (one_zero refl (rw some_errors at h))
]

module _ {S : Type 0} (host : Host S) (room : ℕ) (polls : List Poll)
    (small : length (handled polls) < u64_mod) where
  after_receive_clean :
      (h : Handle) (t : S) (o : Option Tally) (u : S)
      → receive polls (first_tally room) ≡ o
      → after_receive host h t o ≡ some (0, u)
      → InOrder 0 (handled polls)
  after_receive_clean h t none u run e = absurd (cc)
  after_receive_clean h t (some tally) u run e =
      (receive_iff polls (first_tally room) tally run (omega (arith, small))).0
        (exit_code_lem tally (ap (λ (q : ℕ × S). q.0) (some-inj e)))

  after_wait_clean :
      (h : Handle) (t : S) (o : Option Bool) (u : S)
      → after_wait host h false room polls t o ≡ some (0, u)
      → InOrder 0 (handled polls)
  after_wait_clean h t none u e = absurd (cc)
  after_wait_clean h t (some x) u e =
      after_receive_clean h t (receive polls (first_tally room)) u refl e

  consumer_run_clean :
      (waits : List Wait) (o : Option (Result Handle × S)) (u : S)
      → consumer_run host waits false room polls o ≡ some (0, u)
      → InOrder 0 (handled polls)
  consumer_run_clean waits none u e = absurd (cc)
  consumer_run_clean waits (some (err x, t)) u e =
      absurd (one_zero refl (ap (λ (q : ℕ × S). q.0) (some-inj e)))
  consumer_run_clean waits (some (ok h, t)) u e = after_wait_clean h t (await waits) u e

  -- A consumer that no signal has stopped while it after_wait exits with 0 only if all the messages that
  -- it has handled follow one another from 0 on and have good checksums.
  pub consumer_main_clean :
      (b : Binary) (attempts : List Attempt) (name : List ℕ) (capacity : Option ℕ)
      (waits : List Wait) (s u : S)
      → consumer_main host b attempts name capacity waits false room polls s ≡ some (0, u)
      → InOrder 0 (handled polls)
  unfolding consumer_main
  consumer_main_clean b attempts name capacity waits s u e =
      consumer_run_clean waits
        (create_queue host b attempts name (argument 8192 capacity) Role.consumer s) u e

-- The consumer's guard: whatever latencies it has taken, its last line has a defined behaviour.
pub last_line_defined : (scales : Scales) (latency : List ℕ) → last_line scales latency ≢ none
last_line_defined scales [] e = cc
last_line_defined scales (x ∷ xs) e = not_none _ (print_latency_iff scales (x ∷ xs)).0 e
  where
    not_none : (o : Option Line) → (o ≡ none → x ∷ xs ≡ []) → guarded o ≡ none → ⊥
    not_none none h q = absurd (omega (arith, ap length (h refl)))
    not_none (some l) h q = cc
