-- ===== src/Layout/Bounds.antt =====
-- The overflow test of `bytesNeeded` in include/shmspsc/ShmSpscQueue.h.
use shm_spsc.Base.{
  ℕ, ◌+◌, ◌-◌, ◌*◌, ◌/◌, ◌<◌, ◌≤◌, ◌≡◌, ◌⊎◌, inl, inr, arith, ltb, ◌==◌, true, false, Bool-cases,
  refl, ◌≢◌, ltb→lt, ltb-not, size_max, add64, mul64, ==-ne, ==_iff,
}
use native.Mathlib.Nat.{div-lt_iff_lt-mul, le-div_iff_mul-le, le-mul_of_pos_right, mod-eq_of_lt}
use shm_spsc.Base.Results.{ok, err, capacity_overflow}
use shm_spsc.Layout.{Platform, cache_line, Binary, sizeof_control, bytes_needed}

pub line_le : (q : Platform) → cache_line q ≤ 128
line_le Platform.apple_silicon = omega arith
line_le Platform.other = omega arith

ne→lt : (n : ℕ) → n ≤ size_max → n ≢ size_max → n < size_max
ne→lt n h d = ground arith

-- The bytes of a segment of `capacity` elements, as an unbounded number.
abbrev pub true_size : Binary → ℕ → ℕ
true_size b capacity = sizeof_control b + (capacity + 1) * b.elem_size

module _ (b : Binary) (capacity : ℕ) (solid : 0 < b.elem_size) (word : capacity ≤ size_max) where
  few : sizeof_control b ≤ 512
  few = omega (arith, line_le b.platform)

  pub product_le : capacity + 1 ≤ (capacity + 1) * b.elem_size
  product_le = le-mul_of_pos_right (capacity + 1) solid

  -- The quotient test of the code, in products.
  too_many :
      ltb ((size_max - sizeof_control b) / b.elem_size) (capacity + 1) ≡ true
      → size_max < true_size b capacity
  too_many h = let lt = (div-lt_iff_lt-mul solid).0 (ltb→lt _ _ h) in omega (arith, lt, few)

  fits :
      ltb ((size_max - sizeof_control b) / b.elem_size) (capacity + 1) ≡ false
      → true_size b capacity ≤ size_max
  fits h = let le = (le-div_iff_mul-le solid).0 (ltb-not _ _ h) in omega (arith, le, few)

  pub no_wrap :
      true_size b capacity ≤ size_max
      → add64 (sizeof_control b) (mul64 (capacity + 1) b.elem_size) ≡ true_size b capacity
  no_wrap h =
      let e : mul64 (capacity + 1) b.elem_size ≡ (capacity + 1) * b.elem_size =
        mod-eq_of_lt (omega arith) in
      rw e (mod-eq_of_lt (omega arith))

  -- For elements of at least a byte, `bytesNeeded` returns the size of the control block and
  -- `capacity + 1` slots when that is a `std::size_t`, and throws exactly when it is not.
  pub bytes_needed_exact :
      ((bytes_needed b capacity ≡ ok (true_size b capacity)) × (true_size b capacity ≤ size_max))
      ⊎ ((bytes_needed b capacity ≡ err (capacity_overflow capacity))
          × (size_max < true_size b capacity))
  unfolding bytes_needed
  bytes_needed_exact = elim (Bool-cases (capacity == size_max)) [
    | inl top ↦ let e = (==_iff _ _).0 top in rw top (inr (refl, omega (arith, e, product_le)))
    | inr below ↦
        let plus : add64 capacity 1 ≡ capacity + 1 =
          mod-eq_of_lt (omega (arith, ne→lt capacity word (==-ne _ _ below))) in
        rw (below, plus)
          (elim (Bool-cases (ltb ((size_max - sizeof_control b) / b.elem_size) (capacity + 1))) [
            | inl over ↦ rw over (inr (refl, too_many over))
            | inr under ↦ rw (under, no_wrap (fits under)) (inl (refl, fits under))
          ])
  ]
