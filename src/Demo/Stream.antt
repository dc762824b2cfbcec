-- ===== src/Demo/Stream.antt =====
-- The two loops of src/demo_producer.cpp and src/demo_consumer.cpp over a whole run.
use shm_spsc.Base.{
  ℕ, zero, suc, ◌+◌, ◌<◌, ◌≤◌, ◌≡◌, ◌↔◌, refl, sym, ap, ◌∙◌, not, ◌&&◌, some, List, [], ◌∷◌, ◌++◌,
  ltb, ◌==◌, add64, length, arith, Bool-cases, inl, inr, u64_mod, if◌then◌else◌, length-append,
  take,
}
use native.Mathlib.Nat.{mod-eq_of_lt}
use shm_spsc.Demo.{
  Message, make_message, Tally, is_bad, check_one, check_all, Poll, receive, count_in, produce,
  Send, exit_code,
}
use shm_spsc.Demo.Checks.{
  InOrder, good_step, bad_step, grows, is_bad_iff, check_all_iff, make_message-checksum,
}

-- The number expected after a list of messages.
abbrev pub after : ℕ → List Message → ℕ
after n [] = n
after n (m ∷ ms) = after (add64 n 1) ms

append-InOrder :
    (n : ℕ) (xs ys : List Message) → InOrder n (xs ++ ys) ↔ (InOrder n xs × InOrder (after n xs) ys)
append-InOrder n [] ys = (λ h. (tt, h), λ h. h.1)
append-InOrder n (m ∷ xs) ys =
    let rest = append-InOrder (add64 n 1) xs ys in
    (
      λ h. let (s, c, k) = h in let (a, b) = rest.0 k in ((s, c, a), b),
      λ h. let ((s, c, a), b) = h in (s, c, rest.1 (a, b)),
    )

take-InOrder : (k n : ℕ) (ms : List Message) → InOrder n ms → InOrder n (take k ms)
take-InOrder zero n ms h = tt
take-InOrder (suc k) n [] h = tt
take-InOrder (suc k) n (m ∷ ms) (s, c, h) = (s, c, take-InOrder k (add64 n 1) ms h)

-- The messages that the loop handles before it ends.
abbrev pub handled : List Poll → List Message
handled [] = []
handled (p ∷ polls) =
    if p.stop
    then []
    else if length p.batch == 0
    then if not p.peer_alive && p.empty then [] else handled polls
    else p.batch ++ handled polls

expect_lem :
    (now : ℕ) (ms : List Message) (t : Tally)
    → InOrder t.expect ms
    → (check_all now ms t).expect ≡ after t.expect ms
unfolding check_all
expect_lem now [] t h = refl
expect_lem now (m ∷ ms) t (s, c, h) =
    let (_, e) = good_step now m t ((is_bad_iff m t.expect).1 (s, c)) in
    expect_lem now ms (check_one now m t) (rw e h) ∙ ap (λ n. after n ms) e

grows_most :
    (now : ℕ) (ms : List Message) (t : Tally)
    → t.errors + length ms < u64_mod
    → (check_all now ms t).errors ≤ t.errors + length ms
unfolding check_all
grows_most now [] t h = omega arith
grows_most now (m ∷ ms) t h = elim (Bool-cases (is_bad m t.expect)) [
  | inl bad ↦
      let e = bad_step now m t bad ∙ mod-eq_of_lt (omega arith) in
      omega (arith, grows_most now ms (check_one now m t) (omega arith), e)
  | inr good ↦
      let (e, _) = good_step now m t good in
      omega (arith, grows_most now ms (check_one now m t) (omega arith), e)
]

some-inj : {a b : Tally} → some a ≡ some b → a ≡ b
some-inj q = cc

-- What a run of the loop says of the messages in it.
abbrev Verdict : Tally → Tally → List Message → Type 0
Verdict t t' ms = (t.errors ≤ t'.errors) × ((t'.errors ≡ t.errors) ↔ InOrder t.expect ms)

ended : (t t' : Tally) → t ≡ t' → Verdict t t' []
ended t t' e = let same = ap (λ k. k.errors) e in (omega (arith, same), (λ q. tt, λ q. sym same))

-- A batch, and then the rest of the run.
batch_then :
    (now n : ℕ) (ms rest : List Message) (t t' : Tally)
    → t.errors + length (ms ++ rest) < u64_mod
    → ((check_all now ms t).errors + length rest < u64_mod
        → Verdict (count_in n (check_all now ms t)) t' rest)
    → Verdict t t' (ms ++ rest)
batch_then now n ms rest t t' h run =
    let len = length-append ms rest in
    let most = grows_most now ms t (omega arith) in
    let least = grows now ms t (omega arith) in
    let (up, tail) = run (omega arith) in
    let head = check_all_iff now ms t (omega arith) in
    let split = append-InOrder t.expect ms rest in
    (
      omega (arith, up, least),
      (
        λ e.
            let good = head.0 (omega (arith, up, least, e)) in
            split.1
              (good, rw (sym (expect_lem now ms t good)) (tail.0 (omega (arith, up, least, e)))),
        λ q.
            let (good, more) = split.0 q in
            tail.1 (rw (expect_lem now ms t good) more) ∙ head.1 good,
      ),
    )

receive-Verdict :
    (polls : List Poll) (t t' : Tally)
    → receive polls t ≡ some t'
    → t.errors + length (handled polls) < u64_mod
    → Verdict t t' (handled polls)
unfolding receive
receive-Verdict [] t t' e h = absurd (cc)
receive-Verdict (p ∷ polls) t t' e h = elim (Bool-cases p.stop) [
  | inl stop ↦ rw stop (ended t t' (some-inj (rw stop at e)))
  | inr on ↦ elim (Bool-cases (length p.batch == 0)) [
    | inl dry ↦ elim (Bool-cases (not p.peer_alive && p.empty)) [
      | inl leave ↦ rw (on, dry, leave) (ended t t' (some-inj (rw (on, dry, leave) at e)))
      | inr stay ↦
          rw (on, dry, stay)
            (receive-Verdict polls t t' (rw (on, dry, stay) at e) (rw (on, dry, stay) at h))
    ]
    | inr wet ↦
        rw (on, wet)
          (batch_then p.now (length p.batch) p.batch (handled polls) t t' (rw (on, wet) at h) (λ k.
            receive-Verdict polls (count_in (length p.batch) (check_all p.now p.batch t)) t'
              (rw (on, wet) at e) k))
  ]
]

-- The consumer's loop ends with no error exactly when the messages that it has handled, over all
-- its batches, have good checksums and follow one another in number, as long as the count of errors
-- does not wrap.
pub receive_iff :
    (polls : List Poll) (t t' : Tally)
    → receive polls t ≡ some t'
    → t.errors + length (handled polls) < u64_mod
    → (t'.errors ≡ t.errors) ↔ InOrder t.expect (handled polls)
receive_iff polls t t' e h = (receive-Verdict polls t t' e h).1

after-append : (n : ℕ) (xs ys : List Message) → after n (xs ++ ys) ≡ after (after n xs) ys
after-append n [] ys = refl
after-append n (m ∷ xs) ys = after-append (add64 n 1) xs ys

made_one : (n now : ℕ) → InOrder n (make_message n now ∷ [])
unfolding make_message
made_one n now = (refl, make_message-checksum n now, tt)

-- How far the producer is, and what it has pushed.
abbrev Sent : ℕ → ℕ × List Message → Type 0
Sent n x = InOrder n x.1 × (after n x.1 ≡ x.0)

pair-inj : {x y : ℕ × List Message} → some x ≡ some y → x ≡ y
pair-inj q = cc

finish : (n : ℕ) {x y : ℕ × List Message} → x ≡ y → Sent n x → Sent n y
finish n e h = rw (sym e) h

-- What the producer's loop has pushed when it ends has good checksums and follows one another in
-- number, from the first message on.
pub produce-InOrder :
    (total n sent : ℕ) (out : List Message) (turns : List Send) (sent' : ℕ) (out' : List Message)
    → InOrder n out
    → after n out ≡ sent
    → produce total sent out turns ≡ some (sent', out')
    → InOrder n out' × (after n out' ≡ sent')
unfolding produce
produce-InOrder total n sent out [] sent' out' v a e = absurd (cc)
produce-InOrder total n sent out (t ∷ turns) sent' out' v a e =
    elim (Bool-cases (ltb sent total && not t.stop)) [
      | inr over ↦ finish n (pair-inj (rw over at e)) (v, a)
      | inl on ↦ elim (Bool-cases t.pushed) [
        | inr refused ↦ finish n (pair-inj (rw (on, refused) at e)) (v, a)
        | inl pushed ↦
            let m = make_message sent t.now in
            produce-InOrder total n (add64 sent 1) (out ++ m ∷ []) turns sent' out'
              ((append-InOrder n out (m ∷ [])).1 (v, rw a (made_one sent t.now)))
              (after-append n out (m ∷ []) ∙ ap (λ k. add64 k 1) a) (rw (on, pushed) at e)
      ]
    ]

-- A consumer that is sent what the producer's loop has pushed, and gets the first of it in order,
-- ends with no error: its exit code is 0.
pub demo_clean :
    (total : ℕ) (turns : List Send) (sent : ℕ) (ms : List Message) (polls : List Poll)
    (t t' : Tally) (k : ℕ)
    → produce total 0 [] turns ≡ some (sent, ms)
    → t.expect ≡ 0
    → t.errors ≡ 0
    → handled polls ≡ take k ms
    → length (handled polls) < u64_mod
    → receive polls t ≡ some t'
    → exit_code t' ≡ 0
unfolding exit_code
demo_clean total turns sent ms polls t t' k made first none_yet same few e =
    let (v, _) = produce-InOrder total 0 0 [] turns sent ms tt refl made in
    let good : InOrder t.expect (handled polls) = rw (first, same) (take-InOrder k 0 ms v) in
    let clean = (receive_iff polls t t' e (omega arith)).1 good ∙ none_yet in rw clean refl
