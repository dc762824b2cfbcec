-- ===== src/Report.antt =====
-- src/common.h: `percentile`, `printLatency` and `clockOverheadNs`. `std::sort` is given as the
-- insertion sort; what goes to the terminal is a record of its numbers.
pub mod Sort
pub mod Rank
pub mod Clock
use shm_spsc.Base.{
  ℕ, zero, suc, ◌/◌, min, Option, none, some, List, [], ◌∷◌, ltb, if◌then◌else◌, add64, sub64,
  length, get_or,
}

abbrev pub insert : ℕ → List ℕ → List ℕ
insert x [] = x ∷ []
insert x (y ∷ ys) = let rest = insert x ys in if ltb y x then y ∷ rest else x ∷ y ∷ ys

unfoldable pub sort : List ℕ → List ℕ
sort [] = []
sort (x ∷ xs) = insert x (sort xs)

-- `percentile`; `scale n` is `static_cast<std::size_t>(p * n)`, in floating point.
unfoldable pub percentile : (scale : ℕ → ℕ) → List ℕ → ℕ
percentile scale [] = 0
percentile scale (x ∷ xs) = get_or (x ∷ xs) (min (scale (length xs)) (length xs)) 0

-- `back()`, which is undefined on an empty vector
abbrev pub back : List ℕ → Option ℕ
back [] = none
back (x ∷ []) = some x
back (x ∷ y ∷ ys) = back (y ∷ ys)

-- The three products with 0.50, 0.99 and 0.999.
pub record Scales : Type 0 where
  pub p50 : ℕ → ℕ
  pub p99 : ℕ → ℕ
  pub p999 : ℕ → ℕ

pub record Line : Type 0 where
  pub p50 : ℕ
  pub p99 : ℕ
  pub p999 : ℕ
  pub worst : ℕ

abbrev pub line : Scales → List ℕ → Option ℕ → Option Line
line scales sorted none = none
line scales sorted (some worst) = some record {
  p50 = percentile scales.p50 sorted;
  p99 = percentile scales.p99 sorted;
  p999 = percentile scales.p999 sorted;
  worst = worst;
}

-- `printLatency`; `none`: its behaviour is undefined.
unfoldable pub print_latency : Scales → List ℕ → Option Line
print_latency scales samples = line scales (sort samples) (back (sort samples))

-- The loop of `clockOverheadNs`, on what the clock shows at each call of `nowNs`.
abbrev pub read_clock : (iters sink : ℕ) → List ℕ → Option (List ℕ)
read_clock zero sink clock = some clock
read_clock (suc n) sink [] = none
read_clock (suc n) sink (now ∷ clock) = read_clock n (add64 sink now) clock

abbrev pub since : (start iters : ℕ) → Option (List ℕ) → Option ℕ
since start iters none = none
since start iters (some []) = none
since start iters (some (end ∷ clock)) = some (sub64 end start / iters)

unfoldable pub clock_overhead : (iters : ℕ) → List ℕ → Option ℕ
clock_overhead iters [] = none
clock_overhead iters (start ∷ clock) = since start iters (read_clock iters 0 clock)
