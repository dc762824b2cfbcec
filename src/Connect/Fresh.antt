-- ===== src/Connect/Fresh.antt =====
-- The two handles on a queue that `create` of include/shmspsc/ShmSpscQueue.h has just made, and the
-- state that `Spsc` starts from.
use shm_spsc.Base.{
  ℕ, ◌+◌, ◌<◌, ◌≤◌, ◌^◌, ◌≡◌, refl, List, length, arith, Bool-cases, inl, inr, ltb, ltb-not,
}
use native.Mathlib.Nat.{mod-eq_of_lt}
use shm_spsc.Layout.{Role, Binary}
use shm_spsc.Ring.{Handle}
use shm_spsc.Spsc.Safety.{IsFresh}
use shm_spsc.Attach.{clamp, slot_count, init_control, load_members}

slot_count_lem : (capacity : ℕ) → capacity < 2 ^ 63 → slot_count capacity ≡ clamp capacity + 1
unfolding slot_count
slot_count_lem capacity h = elim (Bool-cases (ltb capacity 1)) [
  | inl low ↦ rw low refl
  | inr up ↦ rw up (mod-eq_of_lt (omega arith))
]

pub clamp_in : (capacity : ℕ) → capacity < 2 ^ 63 → (1 ≤ clamp capacity) × (clamp capacity < 2 ^ 63)
clamp_in capacity h = elim (Bool-cases (ltb capacity 1)) [
  | inl low ↦ rw low (omega arith)
  | inr up ↦ let le = ltb-not capacity 1 up in rw up (le, h)
]

-- For a capacity below 2^63 and a segment with room for its slots, a producer and a consumer that
-- load the control block as `create` writes it are in the state that the two processes start from.
pub create-IsFresh {ℓ} :
    {A : Type ℓ} (b : Binary) (capacity bytes : ℕ) (slots : List A) (p c : Handle)
    → capacity < 2 ^ 63
    → slot_count capacity ≤ length slots
    → IsFresh
        (slot_count capacity)
        slots
        (load_members Role.producer p (init_control b (slot_count capacity) bytes))
        (load_members Role.consumer c (init_control b (slot_count capacity) bytes))
unfolding load_members init_control
create-IsFresh b capacity bytes slots p c small whole =
    let e = slot_count_lem capacity small in
    let (lo, hi) = clamp_in capacity small in
    record {
      room = omega (arith, e, lo);
      small = omega (arith, e, hi);
      whole = whole;
      producer_capacity = refl;
      consumer_capacity = refl;
      read_cached = refl;
      write_cached = refl;
    }
