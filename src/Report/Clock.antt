-- ===== src/Report/Clock.antt =====
-- What `clockOverheadNs` of src/common.h returns, for a clock whose readings take their time.
use shm_spsc.Base.{
  ℕ, zero, suc, ◌+◌, ◌*◌, ◌-◌, ◌/◌, ◌%◌, ◌<◌, ◌≤◌, ◌≡◌, refl, ap, ◌∙◌, some, List, [], ◌∷◌, length,
  arith, u64_mod, sub64,
}
use native.Mathlib.Nat.{
  le-div_iff_mul-le, div-mul-le_self, add-mul-div_left, mod-eq_of_lt, add-mod_right,
}
use shm_spsc.Report.{read_clock, clock_overhead}

-- From `now` on, each call of `nowNs` shows a word that is `lo` to `hi` after the one before it.
abbrev pub IsPaced : (lo hi now : ℕ) → List ℕ → Type 0
IsPaced lo hi now [] = Unit
IsPaced lo hi now (t ∷ clock) =
    (now + lo ≤ t) × (t ≤ now + hi) × (t < u64_mod) × IsPaced lo hi t clock

-- What the clock shows at the call after `n` others.
abbrev EndsAfter : (lo hi now n sink : ℕ) → List ℕ → Type 0
EndsAfter lo hi now n sink clock =
    (end : ℕ) × (rest : List ℕ) × (read_clock n sink clock ≡ some (end ∷ rest))
    × (now + lo * suc n ≤ end)
    × (end ≤ now + hi * suc n)
    × (end < u64_mod)

read_clock_lem :
    (lo hi now n sink : ℕ) (clock : List ℕ)
    → IsPaced lo hi now clock
    → n < length clock
    → EndsAfter lo hi now n sink clock
read_clock_lem lo hi now n sink [] paced long = absurd (omega arith)
read_clock_lem lo hi now zero sink (t ∷ clock) (after, before, word, paced) long =
    (t, clock, refl, omega arith, omega arith, word)
read_clock_lem lo hi now (suc n) sink (t ∷ clock) (after, before, word, paced) long =
    let (end, rest, e, least, most, small) = read_clock_lem lo hi t n _ clock paced (omega arith) in
    (end, rest, e, omega (arith, least, after), omega (arith, most, before), small)

elapsed_lem : (start end : ℕ) → start ≤ end → end < u64_mod → sub64 end start ≡ end - start
elapsed_lem start end le small =
    ap (λ k. k % u64_mod) (omega (arith, le))
    ∙ add-mod_right (end - start) u64_mod
    ∙ mod-eq_of_lt (omega arith)

most_lem : (hi iters span : ℕ) → 0 < iters → span ≤ hi * suc iters → span / iters ≤ hi + hi / iters
most_lem hi iters span some_turn h =
    let q = div-mul-le_self span iters in
    let le : span / iters * iters ≤ hi + iters * hi = omega (arith, q, h) in
    let e = add-mul-div_left hi hi some_turn in omega (arith, e, (le-div_iff_mul-le some_turn).1 le)

-- For at least one turn and a clock with a reading for each call, each a 64-bit word from `lo` to
-- `hi` after the one before: what `clockOverheadNs` returns is at least `lo`, and exceeds `hi` by no
-- more than the part of `hi` that falls to each turn (the loop is timed with one more call than turns).
pub clock_overhead_bounds :
    (lo hi iters start : ℕ) (clock : List ℕ)
    → 0 < iters
    → IsPaced lo hi start clock
    → iters < length clock
    → (q : ℕ) × (clock_overhead iters (start ∷ clock) ≡ some q) × (lo ≤ q) × (q ≤ hi + hi / iters)
unfolding clock_overhead
clock_overhead_bounds lo hi iters start clock some_turn paced long =
    let (end, rest, e, least, most, small) = read_clock_lem lo hi start iters 0 clock paced long in
    let span = elapsed_lem start end (omega (arith, least)) small in
    (
      (end - start) / iters,
      rw e (ap (λ k. some (k / iters)) span),
      (le-div_iff_mul-le some_turn).1 (omega (arith, least)),
      most_lem hi iters (end - start) some_turn (omega (arith, most)),
    )
