-- ===== src/Ring/Copies.antt =====
-- The two block copies of `push_n` and of `pop_n` are one run round the ring.
use shm_spsc.Base.{
  ℕ, ◌+◌, ◌-◌, ◌<◌, ◌≤◌, ◌≡◌, sym, ap, ap₂, ◌∙◌, inl, inr, Bool-cases, true, false, List, ◌++◌, ltb,
  ltb→lt, ltb-not, if◌then◌else◌, arith, length, take, drop, min, sub64, take-add, length-take,
  length-take_of_le,
}
use shm_spsc.Ring.{Shared, copy_in, put_run, take_run, drop_run, store_write, store_read}
use shm_spsc.Ring.Index.{advance, advance_to_end, skip_index_lem}
use shm_spsc.Ring.Window.{
  window, window-append, write_run, write_run-append, copy_in-write_run, take-drop-window,
}
use shm_spsc.Ring.Invariant.{IsRing}

-- Where `first = std::min(n, a)` cuts a run of `n` in two, and where it does not.
pub cut_lt : (n a : ℕ) → ltb (min n a) n ≡ true → a < n
cut_lt n a h = omega (arith, ltb→lt (min n a) n h)

pub min_cut : (n a : ℕ) → a < n → min n a ≡ a
min_cut n a h = omega arith

pub fits_le : (n a : ℕ) → ltb (min n a) n ≡ false → n ≤ a
fits_le n a h = omega (arith, ltb-not (min n a) n h)

pub min_fits : (n a : ℕ) → ltb (min n a) n ≡ false → min n a ≡ n
min_fits n a h = omega (arith, ltb-not (min n a) n h)

module _ {ℓ} {A : Type ℓ} {s : Shared A} (v : IsRing s) where
  abbrev cap : ℕ
  cap = s.ctrl.capacity

  sub64_lem : (n a : ℕ) → a ≤ n → n < cap → sub64 n a ≡ n - a
  sub64_lem n a h k = omega (arith, v.small)

  to_end : (i : ℕ) → i < cap → sub64 cap i ≡ cap - i
  to_end i h = omega (arith, v.small)

  two_copies :
      (src : List A) (n w : ℕ)
      → w < cap
      → n < cap
      → n ≤ length src
      → cap - w < n
      → copy_in
          (copy_in s.slots w (take (cap - w) src))
          0
          (take (n - (cap - w)) (drop (cap - w) src))
        ≡ write_run cap s.slots w (take n src)
  two_copies src n w hw hn hs cut =
      copy_in-write_run cap _ 0 tail (omega (arith, tail_short))
      ∙ sym (
          rw
            (
              split,
              write_run-append cap s.slots w head tail hw (omega (arith, len)),
              len,
              advance_to_end cap w hw,
            )
            (ap (λ b. write_run cap b 0 tail)
              (sym (copy_in-write_run cap s.slots w head (omega (arith, len))))))
    where
      head : List A
      head = take (cap - w) src

      tail : List A
      tail = take (n - (cap - w)) (drop (cap - w) src)

      len : length head ≡ cap - w
      len = length-take_of_le (cap - w) src (omega arith)

      tail_short : length tail ≤ cap
      tail_short = omega (arith, length-take (n - (cap - w)) (drop (cap - w) src))

      split : take n src ≡ head ++ tail
      split =
          let e : n ≡ (cap - w) + (n - (cap - w)) = omega arith in
          ap (λ k. take k src) e ∙ take-add (cap - w) (n - (cap - w)) src

  -- What `push_n` writes, for a count that fits.
  pub put_run_lem :
      (src : List A) (n w : ℕ)
      → w < cap
      → n < cap
      → n ≤ length src
      → put_run src n cap w s
        ≡ store_write (advance cap w n) (record s { slots = write_run cap s.slots w (take n src) })
  unfolding put_run
  put_run_lem src n w hw hn hs =
      rw (skip_index_lem cap w n v.small hw hn, to_end w hw)
        (ap (λ l. store_write (advance cap w n) (record s { slots = l })) slots_eq)
    where
      slots_eq :
          (if ltb (min n (cap - w)) n
            then copy_in
                (copy_in s.slots w (take (min n (cap - w)) src))
                0
                (take (sub64 n (min n (cap - w))) (drop (min n (cap - w)) src))
            else copy_in s.slots w (take (min n (cap - w)) src))
          ≡ write_run cap s.slots w (take n src)
      slots_eq = elim (Bool-cases (ltb (min n (cap - w)) n)) [
        | inl cut ↦
            let lt = cut_lt n (cap - w) cut in
            rw (cut, min_cut n (cap - w) lt, sub64_lem n (cap - w) (omega arith) (omega arith))
              (two_copies src n w hw hn hs lt)
        | inr fits ↦
            rw (fits, min_fits n (cap - w) fits)
              (copy_in-write_run cap s.slots w (take n src)
                (omega (arith, length-take n src, fits_le n (cap - w) fits)))
      ]

  -- What `pop_n` reads.
  pub take_run_lem : (n r : ℕ) → r < cap → n < cap → take_run n cap r s ≡ window s.slots cap r n
  unfolding take_run
  take_run_lem n r hr hn = rw (to_end r hr) (elim (Bool-cases (ltb (min n (cap - r)) n)) [
    | inl cut ↦
        let lt = cut_lt n (cap - r) cut in
        rw (cut, min_cut n (cap - r) lt, sub64_lem n (cap - r) (omega arith) (omega arith))
          (two_reads lt)
    | inr fits ↦
        rw (fits, min_fits n (cap - r) fits)
          (take-drop-window cap s.slots r n (omega (arith, fits_le n (cap - r) fits)) v.whole)
  ])
    where
      two_reads :
          cap - r < n
          → take (cap - r) (drop r s.slots) ++ take (n - (cap - r)) s.slots ≡ window s.slots cap r n
      two_reads lt =
          let e : n ≡ (cap - r) + (n - (cap - r)) = omega arith in
          ap₂ ◌++◌ (take-drop-window cap s.slots r (cap - r) (omega arith) v.whole)
            (take-drop-window cap s.slots 0 (n - (cap - r)) (omega arith) v.whole)
          ∙ sym (
              ap (window s.slots cap r) e
              ∙ window-append cap s.slots r (cap - r) (n - (cap - r)) hr (omega arith)
              ∙ ap (λ i. window s.slots cap r (cap - r) ++ window s.slots cap i (n - (cap - r)))
                  (advance_to_end cap r hr))

  pub drop_run_lem :
      (n r : ℕ) → r < cap → n < cap → drop_run n cap r s ≡ store_read (advance cap r n) s
  unfolding drop_run
  drop_run_lem n r hr hn = rw (skip_index_lem cap r n v.small hr hn)
