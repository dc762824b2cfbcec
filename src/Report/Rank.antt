-- ===== src/Report/Rank.antt =====
-- Which samples `percentile` and `printLatency` of src/common.h pick.
use shm_spsc.Base.{
  ℕ, zero, suc, ◌-◌, ◌<◌, ◌≤◌, ◌≡◌, refl, sym, ap, ◌∙◌, ◌↔◌, none, some, List, [], ◌∷◌, ltb, leb,
  length, get_or, min, arith, le→ltb, le→leb,
}
use native.Mathlib.Decide.{dec_le}
use shm_spsc.Report.{percentile, back, Scales, Line, line, print_latency, sort}
use shm_spsc.Report.Sort.{below, upto, AllFrom, IsSorted, tally-sort, length-sort, sort-IsSorted}

-- Fewer than `i + 1` samples are below `x`, and more than `i` are no more than `x`: `x` is the one
-- at index `i` of the sorted samples.
abbrev pub IsRank : ℕ → ℕ → List ℕ → Type 0
IsRank i x xs = (below x xs ≤ i) × (i < upto x xs)

none_below : (x y : ℕ) (ys : List ℕ) → x ≤ y → AllFrom y ys → below x ys ≡ 0
none_below x y [] h a = refl
none_below x y (z ∷ ys) h (lo, a) = rw (le→ltb z x (omega arith)) (none_below x y ys h a)

below-le_upto : (x y : ℕ) (xs : List ℕ) → x < y → upto x xs ≤ below y xs
below-le_upto x y [] h = omega arith
below-le_upto x y (z ∷ xs) h = let rest = below-le_upto x y xs h in ground (arith, rest)

get_or-ge : (y : ℕ) (ys : List ℕ) (i : ℕ) → AllFrom y ys → i < length ys → y ≤ get_or ys i 0
get_or-ge y [] i a h = absurd (omega arith)
get_or-ge y (z ∷ ys) zero (lo, a) h = lo
get_or-ge y (z ∷ ys) (suc i) (lo, a) h = get_or-ge y ys i a (omega arith)

get_or-IsRank : (xs : List ℕ) (i : ℕ) → IsSorted xs → i < length xs → IsRank i (get_or xs i 0) xs
get_or-IsRank [] i s h = absurd (omega arith)
get_or-IsRank (y ∷ ys) zero (a, s) h =
    rw (le→ltb y y (omega arith), le→leb y y (omega arith), none_below y y ys (omega arith) a)
      (omega arith, omega arith)
get_or-IsRank (y ∷ ys) (suc i) (a, s) h =
    let (lo, hi) = get_or-IsRank ys i s (omega arith) in
    let x = get_or ys i 0 in
    rw (le→leb y x (get_or-ge y ys i a (omega arith))) (ground (arith, lo), omega arith)

sort-IsRank : (i x : ℕ) (xs : List ℕ) → IsRank i x (sort xs) → IsRank i x xs
sort-IsRank i x xs (lo, hi) =
    (rw (tally-sort (λ y. ltb y x) xs) at lo, rw (tally-sort (λ y. leb y x) xs) at hi)

-- The index that `percentile` picks.
abbrev pub pick : (ℕ → ℕ) → List ℕ → ℕ
pick scale samples = min (scale (length samples - 1)) (length samples - 1)

percentile-get_or :
    (scale : ℕ → ℕ) (xs : List ℕ)
    → 0 < length xs
    → percentile scale xs ≡ get_or xs (pick scale xs) 0
unfolding percentile
percentile-get_or scale [] h = absurd (omega arith)
percentile-get_or scale (x ∷ xs) h =
    let e : suc (length xs) - 1 ≡ length xs = omega arith in rw e refl

pub percentile-IsRank :
    (scale : ℕ → ℕ) (samples : List ℕ)
    → 0 < length samples
    → IsRank (pick scale samples) (percentile scale (sort samples)) samples
percentile-IsRank scale samples h =
    let len = length-sort samples in
    sort-IsRank _ _ samples (
      rw (percentile-get_or scale (sort samples) (omega (arith, len)), sym len)
        (get_or-IsRank (sort samples) (pick scale (sort samples)) (sort-IsSorted samples)
          (omega (arith, len))))

back-IsRank :
    (xs : List ℕ)
    → IsSorted xs
    → 0 < length xs
    → (x : ℕ) × (back xs ≡ some x) × IsRank (length xs - 1) x xs
back-IsRank xs s h = (
  get_or xs (length xs - 1) 0,
  back_lem xs (length xs - 1) (omega arith),
  get_or-IsRank xs (length xs - 1) s (omega arith),
)
  where
    back_lem : (xs : List ℕ) (n : ℕ) → length xs ≡ suc n → back xs ≡ some (get_or xs n 0)
    back_lem [] n e = absurd (omega arith)
    back_lem (x ∷ []) zero e = refl
    back_lem (x ∷ []) (suc n) e = absurd (omega arith)
    back_lem (x ∷ y ∷ ys) zero e = absurd (omega arith)
    back_lem (x ∷ y ∷ ys) (suc n) e = back_lem (y ∷ ys) n (omega arith)

-- Of two ranks in the same samples the one at the smaller index is no larger.
rank-le : {i j x y : ℕ} (xs : List ℕ) → IsRank i x xs → IsRank j y xs → i ≤ j → x ≤ y
rank-le {i} {j} {x} {y} xs a b h = elim (dec_le x y) [
  | yes le ↦ le
  | no gt ↦ absurd (omega (arith, below-le_upto y x xs (omega (arith, gt)), a, b))
]

module _ (scales : Scales) (samples : List ℕ) where
  -- Where the line's numbers stand among the samples.
  abbrev pub IsLine : Line → Type 0
  IsLine l =
      IsRank (pick scales.p50 samples) l.p50 samples
      × IsRank (pick scales.p99 samples) l.p99 samples
      × IsRank (pick scales.p999 samples) l.p999 samples
      × IsRank (length samples - 1) l.worst samples

  pub print_latency-IsLine :
      0 < length samples → (l : Line) × (print_latency scales samples ≡ some l) × IsLine l
  unfolding print_latency
  print_latency-IsLine h =
      let len = length-sort samples in
      let (x, e, r) = back-IsRank (sort samples) (sort-IsSorted samples) (omega (arith, len)) in
      let last = sort-IsRank _ x samples r in
      (
        _,
        ap (line scales (sort samples)) e,
        (
          percentile-IsRank scales.p50 samples h,
          percentile-IsRank scales.p99 samples h,
          percentile-IsRank scales.p999 samples h,
          rw len at last,
        ),
      )

  -- The four numbers are in order, if the three products are.
  pub IsLine-ordered :
      (l : Line)
      → ((n : ℕ) → (scales.p50 n ≤ scales.p99 n) × (scales.p99 n ≤ scales.p999 n))
      → IsLine l
      → (l.p50 ≤ l.p99) × (l.p99 ≤ l.p999) × (l.p999 ≤ l.worst)
  IsLine-ordered l ordered (a, b, c, d) =
      let (lo, hi) = ordered (length samples - 1) in
      (
        rank-le samples a b (omega (arith, lo)),
        rank-le samples b c (omega (arith, hi)),
        rank-le samples c d (omega arith),
      )

module _ (scales : Scales) where
  nothing_printed : print_latency scales [] ≡ none
  unfolding print_latency sort
  nothing_printed = refl

  -- `printLatency` has a defined behaviour exactly on samples that are not empty.
  pub print_latency_iff :
      (samples : List ℕ) → (print_latency scales samples ≡ none) ↔ (samples ≡ [])
  print_latency_iff samples = (forth samples, λ e. ap (print_latency scales) e ∙ nothing_printed)
    where
      forth : (xs : List ℕ) → print_latency scales xs ≡ none → xs ≡ []
      forth [] e = refl
      forth (x ∷ xs) e =
          let (l, q, _) = print_latency-IsLine scales (x ∷ xs) (omega arith) in absurd (cc)
