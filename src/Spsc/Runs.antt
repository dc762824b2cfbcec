-- ===== src/Spsc/Runs.antt =====
-- The accesses of the two copies of `push_n`, and of `pop_n`, are those of one run round the ring.
use shm_spsc.Base.{
  ℕ, zero, suc, ◌+◌, ◌-◌, ◌<◌, ◌≤◌, ◌^◌, ◌≡◌, refl, sym, ap, ap₂, ◌∙◌, inl, inr, Bool-cases, List,
  [], ◌∷◌, ◌++◌, ltb, arith, length, take, drop, min, sub64, take-add, length-take,
  length-take_of_le,
}
use native.Mathlib.Nat.{zero-add}
use shm_spsc.Ring.Copies.{cut_lt, min_cut, fits_le, min_fits}
use shm_spsc.Ring.Index.{
  advance, advance-lt, advance-suc, advance-one, advance-zero, advance_to_end,
}
use shm_spsc.Spsc.{block, indices, run_writes, run_reads}

module _ (cap : ℕ) where
  -- `n` slots from `i` on, going round.
  unfoldable pub places : ℕ → ℕ → List ℕ
  places i zero = []
  places i (suc n) = i ∷ places (advance cap i 1) n

  indices-places : (i n : ℕ) → i + n ≤ cap → indices i n ≡ places i n
  unfolding places
  indices-places i zero h = refl
  indices-places i (suc zero) h = refl
  indices-places i (suc (suc n)) h =
      rw (advance-one cap i (omega arith))
        (ap (◌∷◌ i) (indices-places (i + 1) (suc n) (omega arith)))

  places-append :
      (i m n : ℕ) → i < cap → m ≤ cap → places i (m + n) ≡ places i m ++ places (advance cap i m) n
  unfolding places
  places-append i zero n p q = rw (zero-add, advance-zero cap i p)
  places-append i (suc m) n p q =
      let e : suc m + n ≡ suc (m + n) = omega arith in
      rw (e, advance-suc cap i m p (omega arith))
        (ap (◌∷◌ i)
          (places-append (advance cap i 1) m n (advance-lt cap i 1 p (omega arith)) (omega arith)))

  pub length-places : (i n : ℕ) → length (places i n) ≡ n
  unfolding places
  length-places i zero = refl
  length-places i (suc n) = ap suc (length-places (advance cap i 1) n)

  module _ (n i : ℕ) (small : cap ≤ 2 ^ 63) (start : i < cap) (short : n < cap) where
    to_end : sub64 cap i ≡ cap - i
    to_end = omega arith

    rest_lem : cap - i ≤ n → sub64 n (cap - i) ≡ n - (cap - i)
    rest_lem h = omega arith

    pub run_reads_lem : run_reads n cap i ≡ places i n
    unfolding run_reads
    run_reads_lem = rw to_end (elim (Bool-cases (ltb (min n (cap - i)) n)) [
      | inl cut ↦
          let lt = cut_lt n (cap - i) cut in
          rw (cut, min_cut n (cap - i) lt, rest_lem (omega arith)) (two lt)
      | inr fits ↦
          rw (fits, min_fits n (cap - i) fits)
            (indices-places i n (omega (arith, fits_le n (cap - i) fits)))
    ])
      where
        two : cap - i < n → indices i (cap - i) ++ indices 0 (n - (cap - i)) ≡ places i n
        two lt =
            let e : n ≡ (cap - i) + (n - (cap - i)) = omega arith in
            ap₂ ◌++◌ (indices-places i (cap - i) (omega arith))
              (indices-places 0 (n - (cap - i)) (omega arith))
            ∙ ap (λ k. places i (cap - i) ++ places k (n - (cap - i)))
                (sym (advance_to_end cap i start))
            ∙ sym (ap (places i) e ∙ places-append i (cap - i) (n - (cap - i)) start (omega arith))

module _ {ℓ} {A : Type ℓ} (cap : ℕ) where
  -- The elements of a list with the slots that they go to.
  unfoldable pub spots : ℕ → List A → List (ℕ × A)
  spots i [] = []
  spots i (x ∷ xs) = (i, x) ∷ spots (advance cap i 1) xs

  block-spots : (i : ℕ) (xs : List A) → i + length xs ≤ cap → block i xs ≡ spots i xs
  unfolding spots
  block-spots i [] h = refl
  block-spots i (x ∷ []) h = refl
  block-spots i (x ∷ y ∷ xs) h =
      rw (advance-one cap i (omega arith))
        (ap (◌∷◌ (i, x)) (block-spots (i + 1) (y ∷ xs) (omega arith)))

  spots-append :
      (i : ℕ) (xs ys : List A)
      → i < cap
      → length xs ≤ cap
      → spots i (xs ++ ys) ≡ spots i xs ++ spots (advance cap i (length xs)) ys
  unfolding spots
  spots-append i [] ys p q = rw (advance-zero cap i p)
  spots-append i (x ∷ xs) ys p q = rw (advance-suc cap i (length xs) p (omega arith)) (
      ap (◌∷◌ (i, x))
        (spots-append (advance cap i 1) xs ys (advance-lt cap i 1 p (omega arith)) (omega arith)))

  module _ (src : List A) (n i : ℕ) (small : cap ≤ 2 ^ 63) (start : i < cap) (short : n < cap)
      (given : n ≤ length src) where
    pub run_writes_lem : run_writes src n cap i ≡ spots i (take n src)
    unfolding run_writes
    run_writes_lem =
        rw (to_end cap n i small start short) (elim (Bool-cases (ltb (min n (cap - i)) n)) [
          | inl cut ↦
              let lt = cut_lt n (cap - i) cut in
              rw (cut, min_cut n (cap - i) lt, rest_lem cap n i small start short (omega arith))
                (two lt)
          | inr fits ↦
              rw (fits, min_fits n (cap - i) fits)
                (block-spots i (take n src)
                  (omega (arith, length-take n src, fits_le n (cap - i) fits)))
        ])
      where
        two :
            cap - i < n
            → block i (take (cap - i) src) ++ block 0 (take (n - (cap - i)) (drop (cap - i) src))
              ≡ spots i (take n src)
        two lt =
            let e : n ≡ (cap - i) + (n - (cap - i)) = omega arith in
            let head = take (cap - i) src in
            let tail = take (n - (cap - i)) (drop (cap - i) src) in
            let len : length head ≡ cap - i = length-take_of_le (cap - i) src (omega arith) in
            let split : take n src ≡ head ++ tail =
              ap (λ k. take k src) e ∙ take-add (cap - i) (n - (cap - i)) src in
            ap₂ ◌++◌ (block-spots i head (omega arith))
              (block-spots 0 tail (omega (arith, length-take (n - (cap - i)) (drop (cap - i) src))))
            ∙ ap (λ k. spots i head ++ spots k tail)
                (sym (ap (advance cap i) len ∙ advance_to_end cap i start))
            ∙ sym (ap (spots i) split ∙ spots-append i head tail start (omega arith))
