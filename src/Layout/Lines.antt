-- ===== src/Layout/Lines.antt =====
-- Where the members of `ControlBlock` of include/shmspsc/ShmSpscQueue.h stand.
use shm_spsc.Base.{
  ℕ, ◌+◌, ◌-◌, ◌*◌, ◌<◌, ◌≤◌, ◌≡◌, ◌↔◌, refl, ap, ◌∙◌, true, List, [], ◌∷◌, arith, eq→==, leb→le,
  le→leb,
}
use native.Mathlib.Nat.{div-eq_of_lt-le, add-mul}
use shm_spsc.Layout.Fields.{
  Member, round_up, offsets, end_of, greater, strictest, members, offset_of, align_of, size_of,
  assertions, elem_fits,
}

module _ (line : ℕ) (wide : 56 < line) where
  below_next : (n k : ℕ) → n ≡ k * line → n + line - 1 < (k + 1) * line
  below_next n k e = omega (arith, e, add-mul k 1 line)

  round_up_multiple : (n k : ℕ) → n ≡ k * line → round_up n line ≡ k * line
  round_up_multiple n k e =
      ap (λ q. q * line)
        (div-eq_of_lt-le line {m = n + line - 1} (omega (arith, e)) (below_next n k e))

  round_up_byte : (n : ℕ) → round_up n 1 ≡ n
  round_up_byte n = omega arith

  line_at : (n : ℕ) → n ≡ line → round_up n line ≡ line
  line_at n e = round_up_multiple n 1 (omega (arith, e)) ∙ omega arith

  offsets_lem :
      offsets 0 (members line)
      ≡ 0
        ∷ 8
        ∷ 16
        ∷ 24
        ∷ 28
        ∷ 32
        ∷ 36
        ∷ 40
        ∷ 44
        ∷ 48
        ∷ 52
        ∷ 56
        ∷ line
        ∷ (line + 8)
        ∷ (2 * line)
        ∷ (2 * line + 8)
        ∷ (3 * line)
        ∷ []
  unfolding members
  offsets_lem =
      rw
        (
          line_at (56 + (line - 56)) (omega arith),
          round_up_byte (line + 8),
          round_up_multiple (line + 8 + (line - 8)) 2 (omega arith),
          round_up_byte (2 * line + 8),
          round_up_multiple (2 * line + 8 + (line - 8)) 3 (omega arith),
        )
        refl

  greater_lem : (m n : ℕ) → n ≤ m → greater m n ≡ m
  greater_lem m n h = ground arith

  -- No member is aligned more strictly than a line.
  abbrev Loose : List Member → Type 0
  Loose [] = Unit
  Loose (m ∷ ms) = (m.align ≤ line) × Loose ms

  strictest_lem : (ms : List Member) → Loose ms → strictest line ms ≡ line
  strictest_lem [] h = refl
  strictest_lem (m ∷ ms) (le, h) = rw (greater_lem line m.align le) (strictest_lem ms h)

  align_lem : align_of line ≡ line
  unfolding align_of members
  align_lem = strictest_lem (members line) (omega arith)

  end_lem : end_of 0 (members line) ≡ 4 * line
  unfolding members
  end_lem =
      rw
        (
          line_at (56 + (line - 56)) (omega arith),
          round_up_byte (line + 8),
          round_up_multiple (line + 8 + (line - 8)) 2 (omega arith),
          round_up_byte (2 * line + 8),
          round_up_multiple (2 * line + 8 + (line - 8)) 3 (omega arith),
        )
        (omega arith)

  size_lem : size_of line ≡ 4 * line
  unfolding size_of
  size_lem = rw (align_lem, end_lem) (round_up_multiple (4 * line) 4 refl)

  assertions_lem : assertions line ≡ true
  unfolding assertions offset_of
  assertions_lem =
      let e = eq→== (size_of line) (4 * line) size_lem in
      let e' = eq→== (align_of line) line align_lem in
      rw (e, e', offsets_lem, eq→== line line refl, eq→== (2 * line) (2 * line) refl) refl

  elem_fits_iff : (elem_align : ℕ) → (elem_fits line elem_align ≡ true) ↔ (elem_align ≤ line)
  unfolding elem_fits
  elem_fits_iff elem_align = (leb→le elem_align line, le→leb elem_align line)

  -- For any cache line above 56 bytes: the offset of each member, which shows that no padding stands
  -- between two of them; the size of the block and its alignment; and the assertions hold, that on
  -- the elements exactly if they are aligned to at most a line.
  pub layout_lem :
      (offsets 0 (members line)
        ≡ 0
          ∷ 8
          ∷ 16
          ∷ 24
          ∷ 28
          ∷ 32
          ∷ 36
          ∷ 40
          ∷ 44
          ∷ 48
          ∷ 52
          ∷ 56
          ∷ line
          ∷ (line + 8)
          ∷ (2 * line)
          ∷ (2 * line + 8)
          ∷ (3 * line)
          ∷ [])
      × (size_of line ≡ 4 * line)
      × (align_of line ≡ line)
      × (assertions line ≡ true)
      × ((elem_align : ℕ) → (elem_fits line elem_align ≡ true) ↔ (elem_align ≤ line))
  layout_lem = (offsets_lem, size_lem, align_lem, assertions_lem, elem_fits_iff)
