-- ===== src/Spsc/Places.antt =====
-- Positions in the stream of elements, and the slot of each: position `p` goes to slot `p` modulo
-- the capacity, counted step by step.
use shm_spsc.Base.{ℕ, zero, suc, ◌+◌, ◌-◌, ◌<◌, ◌≤◌, ◌≡◌, ◌≢◌, sym, ap, ◌∙◌, arith, u64_mod, ◌^◌}
use native.Mathlib.Nat.{add-zero}
use shm_spsc.Ring.{next_index, skip_index, free_slots, used_slots}
use shm_spsc.Ring.Index.{
  advance, advance-lt, advance-suc_last, advance-zero, advance-ne, advance_round, used,
  used-advance_self, next_index_lem, skip_index_lem, free_slots_lem, used_slots_lem,
}

unfoldable pub slot_of : ℕ → ℕ → ℕ
slot_of cap zero = 0
slot_of cap (suc p) = advance cap (slot_of cap p) 1

module _ (cap : ℕ) (some_slot : 0 < cap) where
  pub slot_of-lt : (p : ℕ) → slot_of cap p < cap
  unfolding slot_of
  slot_of-lt zero = some_slot
  slot_of-lt (suc p) = advance-lt cap (slot_of cap p) 1 (slot_of-lt p) (omega arith)

  pub slot_of-add : (p n : ℕ) → n ≤ cap → slot_of cap (p + n) ≡ advance cap (slot_of cap p) n
  unfolding slot_of
  slot_of-add p zero h = rw (add-zero, advance-zero cap (slot_of cap p) (slot_of-lt p))
  slot_of-add p (suc n) h =
      let e : p + suc n ≡ suc (p + n) = omega arith in
      rw (e, slot_of-add p n (omega arith))
        (sym (advance-suc_last cap (slot_of cap p) n (slot_of-lt p) (omega arith)))

  -- A round later the slot is the same.
  pub slot_of_round : (p q : ℕ) → q ≡ p + cap → slot_of cap q ≡ slot_of cap p
  slot_of_round p q e =
      rw (e, slot_of-add p cap (omega arith)) (advance_round cap (slot_of cap p) (slot_of-lt p))

  -- Within a round no two positions share a slot.
  pub slot_of-ne : (p q : ℕ) → p < q → q < p + cap → slot_of cap q ≢ slot_of cap p
  slot_of-ne p q lt near =
      let e : q ≡ p + (q - p) = omega arith in
      rw (e, slot_of-add p (q - p) (omega arith))
        (advance-ne cap (slot_of cap p) (q - p) (slot_of-lt p) (omega arith) (omega arith))

  pub used-slot_of :
      (r w : ℕ) → r ≤ w → w < r + cap → used cap (slot_of cap w) (slot_of cap r) ≡ w - r
  used-slot_of r w h near =
      let e : w ≡ r + (w - r) = omega arith in
      ap (λ k. used cap (slot_of cap k) (slot_of cap r)) e
      ∙ ap (λ k. used cap k (slot_of cap r)) (slot_of-add r (w - r) (omega arith))
      ∙ used-advance_self cap (slot_of cap r) (w - r) (slot_of-lt r) (omega arith)

-- What the index arithmetic of the code comes to, at positions.
module _ (cap : ℕ) (some_slot : 0 < cap) (small : cap ≤ 2 ^ 63) where
  fits : cap < u64_mod
  fits = omega arith

  pub next_index-slot_of : (p : ℕ) → next_index cap (slot_of cap p) ≡ slot_of cap (suc p)
  unfolding slot_of
  next_index-slot_of p = next_index_lem cap (slot_of cap p) fits (slot_of-lt cap some_slot p)

  pub skip_index-slot_of :
      (p n : ℕ) → n < cap → skip_index cap (slot_of cap p) n ≡ slot_of cap (p + n)
  skip_index-slot_of p n h =
      skip_index_lem cap (slot_of cap p) n small (slot_of-lt cap some_slot p) h
      ∙ sym (slot_of-add cap some_slot p n (omega arith))

  pub free_slots-slot_of :
      (r w : ℕ)
      → r ≤ w
      → w < r + cap
      → free_slots cap (slot_of cap w) (slot_of cap r) ≡ cap - 1 - (w - r)
  free_slots-slot_of r w h near =
      free_slots_lem cap (slot_of cap w) (slot_of cap r) fits (slot_of-lt cap some_slot w)
        (slot_of-lt cap some_slot r)
      ∙ ap (λ k. cap - 1 - k) (used-slot_of cap some_slot r w h near)

  pub used_slots-slot_of :
      (r w : ℕ) → r ≤ w → w < r + cap → used_slots cap (slot_of cap w) (slot_of cap r) ≡ w - r
  used_slots-slot_of r w h near =
      used_slots_lem cap (slot_of cap w) (slot_of cap r) fits (slot_of-lt cap some_slot w)
        (slot_of-lt cap some_slot r)
      ∙ used-slot_of cap some_slot r w h near
