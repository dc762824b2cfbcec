-- ===== src/Demo/Checks.antt =====
-- What the count of errors in src/demo_consumer.cpp says of the messages.
use shm_spsc.Base.{
  ℕ, ◌+◌, ◌<◌, ◌≤◌, ◌≡◌, ◌↔◌, refl, sym, ◌∙◌, Bool, true, false, not, ◌||◌, List, [], ◌∷◌, ◌==◌,
  add64, length, arith, Bool-cases, inl, inr, eq→==, ==_iff, u64_mod,
}
use native.Mathlib.Nat.{mod-eq_of_lt}
use shm_spsc.Demo.{Message, checksum_of, make_message, Tally, is_bad, check_one, check_all}

-- Messages with good checksums whose numbers follow one another from `n` on.
abbrev pub InOrder : ℕ → List Message → Type 0
InOrder n [] = Unit
InOrder n (m ∷ ms) = (m.seq ≡ n) × (m.checksum ≡ checksum_of m) × InOrder (add64 n 1) ms

pub make_message-checksum :
    (seq now : ℕ) → (make_message seq now).checksum ≡ checksum_of (make_message seq now)
unfolding make_message checksum_of
make_message-checksum seq now = refl

or_false : (a b : Bool) → (not a || not b) ≡ false → (a ≡ true) × (b ≡ true)
or_false true true e = (refl, refl)
or_false true false e = cc
or_false false b e = cc

pub is_bad_iff :
    (m : Message) (n : ℕ) → (is_bad m n ≡ false) ↔ ((m.seq ≡ n) × (m.checksum ≡ checksum_of m))
is_bad_iff m n = (forth, λ h. rw (eq→== m.seq n h.0, eq→== m.checksum (checksum_of m) h.1) refl)
  where
    forth : is_bad m n ≡ false → (m.seq ≡ n) × (m.checksum ≡ checksum_of m)
    forth e =
        let (a, b) = or_false (m.seq == n) (m.checksum == checksum_of m) e in
        ((==_iff m.seq n).0 a, (==_iff m.checksum (checksum_of m)).0 b)

module _ (now : ℕ) where
  pub good_step :
      (m : Message) (t : Tally)
      → is_bad m t.expect ≡ false
      → ((check_one now m t).errors ≡ t.errors) × ((check_one now m t).expect ≡ add64 t.expect 1)
  unfolding check_one
  good_step m t e = rw e (refl, refl)

  pub bad_step :
      (m : Message) (t : Tally)
      → is_bad m t.expect ≡ true
      → (check_one now m t).errors ≡ add64 t.errors 1
  unfolding check_one
  bad_step m t e = rw e refl

  -- Errors are only added.
  pub grows :
      (ms : List Message) (t : Tally)
      → t.errors + length ms < u64_mod
      → t.errors ≤ (check_all now ms t).errors
  unfolding check_all
  grows [] t h = omega arith
  grows (m ∷ ms) t h = elim (Bool-cases (is_bad m t.expect)) [
    | inl bad ↦
        let e = bad_step m t bad ∙ mod-eq_of_lt (omega arith) in
        omega (arith, grows ms (check_one now m t) (omega arith), e)
    | inr good ↦
        let (e, _) = good_step m t good in
        omega (arith, grows ms (check_one now m t) (omega arith), e)
  ]

  -- The consumer counts no error in a batch exactly when its messages have good checksums and the
  -- numbers that follow one another from the one expected, as long as the count does not wrap.
  pub check_all_iff :
      (ms : List Message) (t : Tally)
      → t.errors + length ms < u64_mod
      → ((check_all now ms t).errors ≡ t.errors) ↔ InOrder t.expect ms
  unfolding check_all
  check_all_iff [] t h = (λ e. tt, λ e. refl)
  check_all_iff (m ∷ ms) t h = elim (Bool-cases (is_bad m t.expect)) [
    | inl bad ↦
        let e = bad_step m t bad ∙ mod-eq_of_lt (omega arith) in
        let up = grows ms (check_one now m t) (omega arith) in
        (
          λ q. absurd (omega arith),
          λ q. absurd (not_both bad ((is_bad_iff m t.expect).1 (q.0, q.1))),
        )
    | inr good ↦
        let (e, e') = good_step m t good in
        let rest = check_all_iff ms (check_one now m t) (omega arith) in
        let (s, c) = (is_bad_iff m t.expect).0 good in
        (λ q. (s, c, rw (sym e') (rest.0 (q ∙ sym e))), λ q. rest.1 (rw e' q.2) ∙ e)
  ]
    where
      not_both : {b : Bool} → b ≡ true → b ≡ false → ⊥
      not_both p q = cc
